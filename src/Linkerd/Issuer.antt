-- ===== src/Linkerd/Issuer.antt =====
-- The certificate that `GenerateIssuerCert` answers.
use Prim.Native.String.{◌++◌ as ◌<>◌}
use text.Mathlib.TextLemmas.{append_cancel_left}
use kl_internal_operator.Base.{
  String, Option, some, List, ◌≡◌, ◌≢◌, ◌⊎◌, inl, inr, refl, ap, ◌∙◌, Any, text_beq_iff,
}
use kl_internal_operator.Kube.{Result, ok, err}
use kl_internal_operator.Cluster.{plain, Os, Sys, resume, run_only}
use kl_internal_operator.Linkerd.Files.{run_only-world}
use kl_internal_operator.Linkerd.{issuer_command, both_files, generate_issuer_cert}

-- What is relied on of the system: a file that is written without an error has its content, and a
-- write leaves the other paths; a file with a content is read without an error; and step-cli, which
-- is run without an input, leaves the files of the flags `--ca` and `--ca-key`.
pub record RootFiles {W : Type 0} (o : Os W) (at : W → String → Option String) : Type 0 where
  pub write-there :
      (w : W) (p t : String) → (o.write_file w p t).0 ≡ ok tt → at (o.write_file w p t).1 p ≡ some t
  pub write-elsewhere : (w : W) (p t q : String) → q ≢ p → at (o.write_file w p t).1 q ≡ at w q
  pub read-there : (w : W) (p t : String) → at w p ≡ some t → o.read_file w p ≡ ok t
  pub run-Keeps :
      (w : W) (args : List String) (q : String)
      → Any (λ a. (a ≡ "--ca=" <> q) ⊎ (a ≡ "--ca-key=" <> q)) args
      → at (o.run w (plain "step-cli" args)).1 q ≡ at w q

crt-ne-key : (id : String) → ("/tmp/" <> (id <> "-root.crt")) ≢ ("/tmp/" <> (id <> "-root.key"))
crt-ne-key id e =
    let same = append_cancel_left id "-root.crt" "-root.key" (append_cancel_left "/tmp/" _ _ e) in
    absurd (cc ((text_beq_iff "-root.crt" "-root.key").1 same))

module _ {W : Type 0} (o : Os W) (id : String) where
  Names : String → Type 0
  Names path =
      Any (λ a. (a ≡ "--ca=" <> path) ⊎ (a ≡ "--ca-key=" <> path)) (issuer_command o id).args

  cert_named : Names ("/tmp/" <> (id <> "-root.crt"))
  unfolding Names
  cert_named = inr (inr (inr (inr (inr (inr (inr (inr (inr (inl (inl refl))))))))))

  key_named : Names ("/tmp/" <> (id <> "-root.key"))
  unfolding Names
  key_named = inr (inr (inr (inr (inr (inr (inr (inr (inr (inr (inl (inr refl)))))))))))

-- The answer has no error only with this certificate and this key.
abbrev pub Answers : String → String → Result (String × String) → Type 0
Answers cert key r = (pair : String × String) → r ≡ ok pair → pair ≡ (cert, key)

module _ {W : Type 0} {o : Os W} {at : W → String → Option String} (files : RootFiles o at) where
  resume-Answers :
      {A : Type 0} (r : Result A) (f : A → Sys W (String × String)) (w : W) (cert key : String)
      → ((a : A) → r ≡ ok a → Answers cert key (f a w).0)
      → Answers cert key (resume r f w).0
  resume-Answers (ok a) f w cert key h pair same = h a refl pair same
  resume-Answers (err e) f w cert key h pair same = absurd (cc same)

  read-Answers :
      (w : W) (cert_path key_path cert key : String)
      → at w cert_path ≡ some cert
      → at w key_path ≡ some key
      → Answers cert key (both_files o cert_path key_path w).0
  read-Answers w cert_path key_path cert key there there' pair same =
      let read = files.read-there w cert_path cert there in
      let read' = files.read-there w key_path key there' in
      let both : (both_files o cert_path key_path w).0 ≡ ok (cert, key) = rw (read, read') refl in
      cc (both, same)

  -- step-cli leaves a file that one of its flags names.
  input-Keeps :
      (args : List String) (w : W) (path text : String)
      → Any (λ a. (a ≡ "--ca=" <> path) ⊎ (a ≡ "--ca-key=" <> path)) args
      → at w path ≡ some text
      → at (run_only o (plain "step-cli" args) w).1 path ≡ some text
  input-Keeps args w path text named there =
      ap (λ w. at w path) (run_only-world o (plain "step-cli" args) w)
      ∙ files.run-Keeps w args path named
      ∙ there

  answers :
      (root_ca root_key : String) (w : W)
      → Answers root_ca root_key (generate_issuer_cert o root_ca root_key w).0
  unfolding generate_issuer_cert Names
  answers root_ca root_key w =
      resume-Answers (o.nanoid w).0 _ (o.nanoid w).1 root_ca root_key (λ id _.
        let w1 = (o.nanoid w).1 in
        let cert_path = "/tmp/" <> (id <> "-root.crt") in
        let key_path = "/tmp/" <> (id <> "-root.key") in
        let w2 = (o.write_file w1 cert_path root_ca).1 in
        let w3 = (o.write_file w2 key_path root_key).1 in
        resume-Answers (o.write_file w1 cert_path root_ca).0 _ w2 root_ca root_key (λ u wrote.
          resume-Answers (o.write_file w2 key_path root_key).0 _ w3 root_ca root_key (λ u' wrote'.
            let cmd = issuer_command o id in
            let there = files.write-there w1 cert_path root_ca wrote in
            let there' =
              files.write-elsewhere w2 key_path root_key cert_path (crt-ne-key id) ∙ there in
            resume-Answers (run_only o cmd w3).0 _ (run_only o cmd w3).1 root_ca root_key
              (λ u'' ran.
                read-Answers (run_only o cmd w3).1 cert_path key_path root_ca root_key
                  (input-Keeps cmd.args w3 cert_path root_ca (cert_named o id) there')
                  (input-Keeps cmd.args w3 key_path root_key (key_named o id)
                    (files.write-there w2 key_path root_key wrote'))))))

  -- If `GenerateIssuerCert` answers without an error, the certificate and the key are the root's
  -- that it was given, if a file that is written has its content, a write leaves the other files, a
  -- read gives the content of a file, and step-cli leaves the files that its flags `--ca` and
  -- `--ca-key` name.
  pub generate_issuer_cert_root :
      (root_ca root_key : String) (w : W) (pair : String × String)
      → (generate_issuer_cert o root_ca root_key w).0 ≡ ok pair
      → pair ≡ (root_ca, root_key)
  generate_issuer_cert_root root_ca root_key w = answers root_ca root_key w
