-- ===== src/Linkerd/Files.antt =====
-- The files that `Install` and `Upgrade` write, and those that they remove.
use Prim.Native.String.{◌++◌ as ◌<>◌}
use mathlib.Core.List.{append_assoc, append-nil}
use kl_internal_operator.Base.{
  String, Option, none, some, List, [], ◌∷◌, ◌++◌, ◌≡◌, inl, inr, refl, sym, ap, ◌∙◌, Any,
}
use kl_internal_operator.Kube.{Result, ok, err}
use kl_internal_operator.Cluster.{
  Command, answer, run_only, Os, Sys, resume, Cluster, kubectl_apply, exec,
}
use kl_internal_operator.Linkerd.{applying, in_file, with_file, with_certificates, install, upgrade}

module _ {W : Type 0} where
  answered-world : (r : Result String) (w : W) → (resume {W = W} r (λ _. answer tt) w).1 ≡ w
  answered-world (ok out) w = refl
  answered-world (err e) w = refl

  pub run_only-world : (o : Os W) (cmd : Command) (w : W) → (run_only o cmd w).1 ≡ (o.run w cmd).1
  run_only-world o cmd w = answered-world (o.run w cmd).0 (o.run w cmd).1

-- A write or a removal of a file, or the run of a command, whether it succeeds or not.
pub data Call : Type 0 where
  wrote : String → Call
  removed : String → Call
  ran : String → Call

abbrev noting : {W A : Type 0} → List Call → A × W → A × (W × List Call)
noting calls (r, w) = (r, (w, calls))

-- The system, with the calls that were made so far, the last one at the end.
abbrev pub recording : {W : Type 0} → Os W → Os (W × List Call)
recording o = record {
  run = λ w c. noting (w.1 ++ (ran c.name ∷ [])) (o.run w.0 c);
  write_file = λ w p t. noting (w.1 ++ (wrote p ∷ [])) (o.write_file w.0 p t);
  read_file = λ w p. o.read_file w.0 p;
  remove = λ w p. noting (w.1 ++ (removed p ∷ [])) (o.remove w.0 p);
  remove_all = λ w p. noting w.1 (o.remove_all w.0 p);
  is_not_exist = λ w p. o.is_not_exist w.0 p;
  mkdir = λ w p. noting w.1 (o.mkdir w.0 p);
  nanoid = λ w. noting w.1 (o.nanoid w.0);
}

abbrev OnlyRemovals : List Call → Type 0
OnlyRemovals [] = Unit
OnlyRemovals (removed p ∷ calls) = OnlyRemovals calls
OnlyRemovals (wrote p ∷ calls) = ⊥
OnlyRemovals (ran name ∷ calls) = ⊥

-- Every write of a file is followed by a removal of it, and after the first removal nothing is run or
-- written any more.
abbrev pub IsCleaned : List Call → Type 0
IsCleaned [] = Unit
IsCleaned (wrote p ∷ calls) = Any (λ c. c ≡ removed p) calls × IsCleaned calls
IsCleaned (removed p ∷ calls) = OnlyRemovals calls
IsCleaned (ran name ∷ calls) = IsCleaned calls

Any-last : (p : String) (calls : List Call) → Any (λ c. c ≡ removed p) (calls ++ (removed p ∷ []))
Any-last p [] = inl refl
Any-last p (c ∷ calls) = inr (Any-last p calls)

Any-append : (P : Call → Type 0) (calls more : List Call) → Any P calls → Any P (calls ++ more)
Any-append P [] more h = absurd h
Any-append P (c ∷ calls) more (inl h) = inl h
Any-append P (c ∷ calls) more (inr h) = inr (Any-append P calls more h)

OnlyRemovals-removed :
    (calls : List Call) (p : String) → OnlyRemovals calls → OnlyRemovals (calls ++ (removed p ∷ []))
OnlyRemovals-removed [] p h = tt
OnlyRemovals-removed (removed q ∷ calls) p h = OnlyRemovals-removed calls p h
OnlyRemovals-removed (wrote q ∷ calls) p h = absurd h
OnlyRemovals-removed (ran name ∷ calls) p h = absurd h

IsCleaned-removed :
    (calls : List Call) (p : String) → IsCleaned calls → IsCleaned (calls ++ (removed p ∷ []))
IsCleaned-removed [] p h = tt
IsCleaned-removed (wrote q ∷ calls) p h =
    (Any-append _ calls (removed p ∷ []) h.0, IsCleaned-removed calls p h.1)
IsCleaned-removed (removed q ∷ calls) p h = OnlyRemovals-removed calls p h
IsCleaned-removed (ran name ∷ calls) p h = IsCleaned-removed calls p h

module _ {W : Type 0} (o : Os W) where
  -- The calls that are made from here on clean up.
  abbrev Cleans : W × List Call → W × List Call → Type 0
  Cleans w w' = (calls : List Call) × (w'.1 ≡ w.1 ++ calls) × IsCleaned calls

  Cleans-none : (w w' : W × List Call) → w'.1 ≡ w.1 → Cleans w w'
  Cleans-none w w' e = ([], e ∙ sym (append-nil w.1), tt)

  in_file-Cleans :
      (path text flag : String) (opts : List String)
      (rest : List String → Sys (W × List Call) (Unit {0}))
      → ((opts : List String) (w : W × List Call) → Cleans w (rest opts w).1)
      → (w : W × List Call) → Cleans w (in_file (recording o) path text flag opts rest w).1
  in_file-Cleans path text flag opts rest cleans w =
      let (calls, e, cleaned) =
        cleans (opts ++ ((flag <> path) ∷ [])) ((recording o).write_file w path text).1 in
      (
        wrote path ∷ (calls ++ (removed path ∷ [])),
        ap (λ l. l ++ (removed path ∷ [])) e
            ∙ append_assoc (w.1 ++ (wrote path ∷ [])) calls (removed path ∷ [])
            ∙ append_assoc w.1 (wrote path ∷ []) (calls ++ (removed path ∷ [])),
        (Any-last path calls, IsCleaned-removed calls path cleaned),
      )

  ids-Cleans :
      (text suffix flag : String) (opts : List String)
      (rest : List String → Sys (W × List Call) (Unit {0}))
      → ((opts : List String) (w : W × List Call) → Cleans w (rest opts w).1)
      → (drawn : Result String) (w : W × List Call)
      → Cleans w
          (resume drawn
            (λ id. in_file (recording o) ("/tmp/" <> (id <> suffix)) text flag opts rest)
            w).1
  ids-Cleans text suffix flag opts rest cleans (err e) w = Cleans-none w w refl
  ids-Cleans text suffix flag opts rest cleans (ok id) w =
      in_file-Cleans _ text flag opts rest cleans w

  with_file-Cleans :
      (given : Option String) (suffix flag : String) (opts : List String)
      (rest : List String → Sys (W × List Call) (Unit {0}))
      → ((opts : List String) (w : W × List Call) → Cleans w (rest opts w).1)
      → (w : W × List Call) → Cleans w (with_file (recording o) given suffix flag opts rest w).1
  unfolding with_file
  with_file-Cleans none suffix flag opts rest cleans w = cleans opts w
  with_file-Cleans (some text) suffix flag opts rest cleans w =
      ids-Cleans text suffix flag opts rest cleans (o.nanoid w.0).0 ((o.nanoid w.0).1, w.1)

  -- A command that has run, and kubectl after it.
  yml_applied :
      (l : Cluster) (r : Result String) (w w' : W × List Call) (name : String)
      → w'.1 ≡ w.1 ++ (ran name ∷ [])
      → Cleans w (resume r (λ yml. kubectl_apply (recording o) l yml) w').1
  unfolding kubectl_apply
  yml_applied l (err e) w w' name h = (ran name ∷ [], h, tt)
  yml_applied l (ok yml) w w' name h = (
    ran name ∷ ran "kubectl" ∷ [],
    ap (λ w. w.1) (run_only-world (recording o) _ w')
        ∙ ap (λ l. l ++ (ran "kubectl" ∷ [])) h
        ∙ append_assoc w.1 (ran name ∷ []) (ran "kubectl" ∷ []),
    tt,
  )

  applied-Cleans :
      (l : Cluster) (opts : List String) (w : W × List Call)
      → Cleans w (applying (recording o) l (exec (recording o) l "linkerd" opts) w).1
  unfolding exec
  applied-Cleans l opts w =
      let run = exec (recording o) l "linkerd" opts in
      yml_applied l (run w).0 w (run w).1 "linkerd" refl

  with_certificates-Cleans :
      (l : Cluster) (trust cert key : Option String) (opts : List String) (w : W × List Call)
      → Cleans w
          (with_certificates
            (recording o)
            trust
            cert
            key
            opts
            (λ opts. applying (recording o) l (exec (recording o) l "linkerd" opts))
            w).1
  with_certificates-Cleans l trust cert key opts w =
      with_file-Cleans trust _ _ opts _
        (λ opts.
          with_file-Cleans cert _ _ opts _
            (λ opts. with_file-Cleans key _ _ opts _ (λ opts. applied-Cleans l opts)))
        w

  from_none : (w w' : W × List Call) → w.1 ≡ [] → Cleans w w' → IsCleaned w'.1
  from_none w w' start (calls, e, cleaned) = rw (e, start) cleaned

  -- Over any system, whatever its calls answer: of the writes and removals of files and the runs of
  -- commands that `Install` makes, with any certificates and key, given or not, and however it
  -- ends, every write is followed by a removal of the same file, and after the first removal
  -- nothing is run or written any more; and so for `Upgrade`.
  pub install_cleans_up :
      (l : Cluster) (trust cert key : Option String) (w : W)
      → IsCleaned (install (recording o) l trust cert key (w, [])).1.1
        × IsCleaned (upgrade (recording o) l trust cert key (w, [])).1.1
  unfolding install upgrade
  install_cleans_up l trust cert key w =
      let done = λ (command : String).
        with_certificates (recording o) trust cert key (command ∷ [])
          (λ opts. applying (recording o) l (exec (recording o) l "linkerd" opts)) (w, []) in
      (
        from_none (w, []) (done "install").1 refl
            (with_certificates-Cleans l trust cert key ("install" ∷ []) (w, [])),
        from_none (w, []) (done "upgrade").1 refl
            (with_certificates-Cleans l trust cert key ("upgrade" ∷ []) (w, [])),
      )
