-- ===== src/Functions/Encoding/Ids.antt =====
-- The ids of `CleanerNanoid`, and the comparison of JSON texts.
use Prim.Native.String.{◌++◌ as ◌<>◌}
use kl_internal_operator.Base.{◌≡◌, String, false, arith}
use kl_internal_operator.Functions.Encoding.{Codec, clean_id}

module _ {W V B : Type 0} (k : Codec W V B) where
  -- What is relied on of strings.HasPrefix and HasSuffix.
  pub record SeesDashes : Type 0 where
    pub has_prefix-k : (s : String) → k.has_prefix ("k" <> s) "-" ≡ false
    pub has_suffix-k : (s : String) → k.has_suffix (s <> "k") "-" ≡ false
    pub has_prefix-append : (s : String) → k.has_prefix (s <> "k") "-" ≡ k.has_prefix s "-"

  -- An id neither begins nor ends with a dash.
  pub clean_id_lem :
      SeesDashes
      → (id : String)
      → (k.has_prefix (clean_id k id) "-" ≡ false) × (k.has_suffix (clean_id k id) "-" ≡ false)
  unfolding clean_id
  clean_id_lem law id =
      let res = k.dashed id in
      ground (
        arith,
        law.has_prefix-k res,
        law.has_suffix-k res,
        law.has_suffix-k ("k" <> res),
        law.has_prefix-append res,
        law.has_prefix-append ("k" <> res),
      )
