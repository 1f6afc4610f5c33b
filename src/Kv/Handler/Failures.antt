-- ===== src/Kv/Handler/Failures.antt =====
-- When a KV request that stores values is answered with a failure (KvHandler.cpp).
use fcache.Base.{
  ◌≡◌, refl, List, [], ◌∷◌, Bool, true, false, Option, none, some, Bool-cases, inl, inr, arith,
}
use fcache.Value.{Fcstring}
use fcache.Response.{FlexValue, ResponseBody, FlatBuilder, IsFailure}
use fcache.Kv.DenseMap.{DenseMap}
use fcache.Kv.CachedValue.{FloatBytes}
use fcache.Kv.CachedValue.RoundTrip.{is_supported, supported-cached}
use fcache.Kv.Contents.{are_supported}
use fcache.Kv.CacheMap.{CacheMap, clear, set_or_add, set_or_add_each}
use fcache.Kv.Handler.{
  KvHandler, get_or_create_group, get_group, set_or_add_in, clear_set_group, clear_set_in, answer,
}

module _ {F : Type 0} (b : FloatBytes F) (d : DenseMap) where
  -- The loop over the values of a request gets to its end if each is of a type that is stored.
  set_or_add_each-valid :
      (is_set : Bool) (m : CacheMap b d) (kv : List (Fcstring × FlexValue F))
      → are_supported kv ≡ true
      → (set_or_add_each b d is_set m kv).1 ≡ true
  unfolding set_or_add_each
  set_or_add_each-valid is_set m [] e = refl
  set_or_add_each-valid is_set m ((j, v) ∷ kv) e = elim (Bool-cases (is_supported v)) [
    | inr no_type ↦ absurd (ground arith)
    | inl typed ↦
        let (c, stored) = supported-cached b v typed in
        rw (stored, set_or_add_each)
          (set_or_add_each-valid is_set (set_or_add b d is_set m j c) kv (ground arith))
  ]

  pub set_or_add_in-valid :
      (is_set : Bool) (h : KvHandler b d) (kv : List (Fcstring × FlexValue F)) (g : Option Fcstring)
      → are_supported kv ≡ true
      → (set_or_add_in b d is_set h kv g).1 ≡ true
  unfolding set_or_add_in
  set_or_add_in-valid is_set h kv none = set_or_add_each-valid is_set h.m_map kv
  set_or_add_in-valid is_set h kv (some name) =
      set_or_add_each-valid is_set (get_or_create_group b d h.m_groups name).1 kv

  -- A request to clear and set fails in a group that is not there as well, and changes nothing then.
  pub clear_set_in-valid :
      (h : KvHandler b d) (kv : List (Fcstring × FlexValue F)) (g : Option Fcstring)
      → are_supported kv ≡ true
      → (clear_set_in b d h kv g).1 ≡ false
      → (clear_set_in b d h kv g).0 ≡ h
  unfolding clear_set_in
  clear_set_in-valid h kv none e =
      λ failed. let valid = set_or_add_each-valid true (clear b d h.m_map) kv e in absurd (cc)
  clear_set_in-valid h kv (some name) e = by_group (get_group b d h name)
    where
      by_group :
          (o : Option (CacheMap b d))
          → (clear_set_group b d h name kv o).1 ≡ false
          → (clear_set_group b d h name kv o).0 ≡ h
      by_group none failed = refl
      by_group (some m) failed =
          let valid = set_or_add_each-valid true (clear b d m) kv e in absurd (cc)

  -- What the flag of a call means for the answer that is made of it.
  pub answer_failed :
      (fbb : FlatBuilder F) (t : ResponseBody) (r : KvHandler b d × Bool)
      → IsFailure (answer b d fbb t r).1
      → r.1 ≡ false
  answer_failed fbb t (h, true) failed = absurd (failed refl)
  answer_failed fbb t (h, false) failed = refl
