-- ===== src/Memory/Resource/Same.antt =====
-- When two memory resources hand out the same blocks: a PrintResource and its upstream do.
use mathlib.Core.Option
use fcache.Base.{
  ℕ, zero, suc, ◌<◌, ◌≡◌, refl, ap, ◌∙◌, List, [], ◌∷◌, ◌++◌, Bool, false, Option, none, some,
  length, min, ltb, arith, subst,
}
use fcache.Value.{Fcstring}
use fcache.Memory.{format_char, format_bytes, format_destroyed_bytes}
use fcache.Memory.Resource.{
  Address, MemoryResource, LogLine, do_allocate, do_deallocate, print_resource, PrintState,
  dealloc_line,
}

-- The loop that prints the bytes of a block does not read behind its end.
format_bytes_defined :
    (in_string : Bool) (rounds : ℕ) (is_truncated : Bool) (bytes : List ℕ)
    → rounds < length bytes
    → (text : Fcstring) × (format_bytes in_string rounds is_truncated bytes ≡ some text)
unfolding format_bytes
format_bytes_defined s zero t [] h = absurd (omega arith)
format_bytes_defined s zero t (c ∷ bytes) h = (_, refl)
format_bytes_defined s (suc rounds) t [] h = absurd (omega arith)
format_bytes_defined s (suc rounds) t (c ∷ []) h = absurd (omega arith)
format_bytes_defined s (suc rounds) t (c ∷ next ∷ bytes) h =
    let (text, e) =
      format_bytes_defined (format_char s c next).0 rounds t (next ∷ bytes) (omega arith) in
    (_, ap (Option.map (λ rest. (format_char s c next).1 ++ rest)) e)

format_destroyed_bytes_defined :
    (bytes : List ℕ)
    → 0 < length bytes
    → (text : Fcstring) × (format_destroyed_bytes bytes ≡ some text)
unfolding format_destroyed_bytes
format_destroyed_bytes_defined [] h = absurd (omega arith)
format_destroyed_bytes_defined (c ∷ bytes) h =
    format_bytes_defined false (min (length bytes) 32) (ltb 32 (length bytes)) (c ∷ bytes)
      (omega arith)

-- Two results of giving a block back: both undefined, or both with related states.
abbrev pub AreRelated : {S T : Type 0} → (S → T → Type 0) → Option S → Option T → Type 0
AreRelated rel none none = Unit
AreRelated rel (some s) (some t) = rel s t
AreRelated rel _ _ = ⊥

-- Two resources that hand out the same blocks, as long as no empty block is given back.
abbrev pub Same : MemoryResource → MemoryResource → Type 1
Same r r' =
    (rel : r.State → r'.State → Type 0) × rel r.start r'.start
    × ((bytes alignment : ℕ) (s : r.State) (t : r'.State)
        → rel s t
        → ((r.allocate bytes alignment s).1 ≡ (r'.allocate bytes alignment t).1)
          × rel (r.allocate bytes alignment s).0 (r'.allocate bytes alignment t).0)
    × ((p : Address) (block : List ℕ) (alignment : ℕ) (s : r.State) (t : r'.State)
        → 0 < length block
        → rel s t
        → AreRelated rel (r.deallocate p block alignment s) (r'.deallocate p block alignment t))

module _ (name : Fcstring) (r : MemoryResource) where
  abbrev IsUpstream : PrintState name r → r.State → Type 0
  IsUpstream s t = s.0 ≡ t

  log_or_not :
      (o : Option r.State) (log : List LogLine)
      → AreRelated IsUpstream (Option.map (λ s. (s, log)) o) o
  log_or_not none log = tt
  log_or_not (some s) log = refl

  do_deallocate_lem :
      (p : Address) (block : List ℕ) (alignment : ℕ) (s : PrintState name r) (t : r.State)
      → 0 < length block
      → IsUpstream s t
      → AreRelated IsUpstream
          (do_deallocate name r p block alignment s)
          (r.deallocate p block alignment t)
  unfolding do_deallocate Option.bind
  do_deallocate_lem p block alignment s t h e =
      let (text, printed) = format_destroyed_bytes_defined block h in
      subst
        (λ u.
          AreRelated IsUpstream (do_deallocate name r p block alignment s)
            (r.deallocate p block alignment u))
        e
        (rw (printed, Option.bind)
          (log_or_not (r.deallocate p block alignment s.0)
            (s.1 ++ dealloc_line name p (length block) text ∷ [])))

  -- A PrintResource hands out the blocks of its upstream.
  pub print_resource-Same : Same (print_resource name r) r
  unfolding do_allocate
  print_resource-Same = (
    IsUpstream,
    refl,
    (λ bytes alignment s t e. (
      ap (λ u. (r.allocate bytes alignment u).1) e,
      ap (λ u. (r.allocate bytes alignment u).0) e,
    )),
    do_deallocate_lem,
  )

module _ (r r' r'' : MemoryResource) (q : Same r r') (q' : Same r' r'') where
  abbrev Through : r.State → r''.State → Type 0
  Through s u = (t : r'.State) × q.0 s t × q'.0 t u

  AreRelated-Through :
      (o : Option r.State) (o' : Option r'.State) (o'' : Option r''.State)
      → AreRelated q.0 o o'
      → AreRelated q'.0 o' o''
      → AreRelated Through o o''
  AreRelated-Through none none none h k = tt
  AreRelated-Through (some s) (some t) (some u) h k = (t, h, k)
  AreRelated-Through none none (some u) h k = k
  AreRelated-Through none (some t) o h k = absurd h
  AreRelated-Through (some s) none o h k = absurd h
  AreRelated-Through (some s) (some t) none h k = k

  pub Same-trans : Same r r''
  Same-trans = (
    Through,
    (r'.start, q.1, q'.1),
    (λ bytes alignment s u e.
        let k = q.2 bytes alignment s e.0 e.1 in
        let k' = q'.2 bytes alignment e.0 u e.2 in
        (k.0 ∙ k'.0, ((r'.allocate bytes alignment e.0).0, k.1, k'.1))),
    (λ p block alignment s u h e.
        AreRelated-Through (r.deallocate p block alignment s) (r'.deallocate p block alignment e.0)
          (r''.deallocate p block alignment u) (q.3 p block alignment s e.0 h e.1)
          (q'.3 p block alignment e.0 u h e.2)),
  )
