-- ===== src/Memory/Resource/Chains.antt =====
-- The chains of a debug build and of a release hand out the same blocks.
use mathlib.Core.Option
use mathlib.Core.Path.{ap₂}
use fcache.Base.{ℕ, ◌<◌, ◌≡◌, refl, List, [], ◌∷◌, true, false, Option, none, some, length}
use fcache.Value.{Fcstring}
use fcache.Memory.Resource.{
  Address, MemoryResource, print_resource, PmrResources, map_memory_pool, vector_memory_alloc,
  vector_memory_pool, map_mono, map_pool, value_mono, value_pool,
}
use fcache.Memory.Resource.Same.{AreRelated, Same, print_resource-Same, Same-trans}

-- What is asked of a resource.
pub data Call : Type 0 where
  allocating : ℕ → ℕ → Call
  deallocating : Address → List ℕ → ℕ → Call

-- The addresses of the blocks that are handed out, `none` where the behaviour is undefined.
unfoldable pub addresses : (r : MemoryResource) → r.State → List Call → Option (List Address)
addresses r s [] = some []
addresses r s (allocating bytes alignment ∷ calls) =
    let (s', p) = r.allocate bytes alignment s in
    Option.map (λ rest. p ∷ rest) (addresses r s' calls)
addresses r s (deallocating p block alignment ∷ calls) =
    Option.bind (r.deallocate p block alignment s) (λ s'. addresses r s' calls)

-- No empty block is given back.
abbrev pub NoneEmpty : List Call → Type 0
NoneEmpty [] = Unit
NoneEmpty (allocating bytes alignment ∷ calls) = NoneEmpty calls
NoneEmpty (deallocating p block alignment ∷ calls) = (0 < length block) × NoneEmpty calls

addresses-Same :
    (r r' : MemoryResource) (q : Same r r') (s : r.State) (t : r'.State) (calls : List Call)
    → NoneEmpty calls
    → q.0 s t
    → addresses r s calls ≡ addresses r' t calls
unfolding addresses Option.bind
addresses-Same r r' q s t [] ok e = refl
addresses-Same r r' q s t (allocating bytes alignment ∷ calls) ok e =
    let k = q.2 bytes alignment s t e in
    ap₂ (λ (p : Address) (rest : Option (List Address)). Option.map (λ l. p ∷ l) rest) k.0
      (addresses-Same r r' q _ _ calls ok k.1)
addresses-Same r r' q s t (deallocating p block alignment ∷ calls) ok e =
    after (r.deallocate p block alignment s) (r'.deallocate p block alignment t)
      (λ s' t' h. addresses-Same r r' q s' t' calls ok.1 h) (q.3 p block alignment s t ok.0 e)
  where
    after :
        (o : Option r.State) (o' : Option r'.State)
        → ((s' : r.State) (t' : r'.State)
            → q.0 s' t'
            → addresses r s' calls ≡ addresses r' t' calls)
        → AreRelated q.0 o o'
        → Option.bind o (λ s'. addresses r s' calls) ≡ Option.bind o' (λ t'. addresses r' t' calls)
    after none none rest h = refl
    after (some s') (some t') rest h = rest s' t' h
    after none (some t') rest h = absurd h
    after (some s') none rest h = absurd h

-- Pools on top of two resources that hand out the same blocks do so, too: a pool asks its upstream
-- for blocks and gives none back that is empty.
abbrev pub PoolsAgree : PmrResources → Type 1
PoolsAgree std =
    (r r' : MemoryResource)
    → Same r r'
    → Same (std.unsynchronized_pool_resource r) (std.unsynchronized_pool_resource r')

started_alike :
    (r r' : MemoryResource)
    → Same r r'
    → (calls : List Call) → NoneEmpty calls
    → addresses r r.start calls ≡ addresses r' r'.start calls
started_alike r r' q calls ok = addresses-Same r r' q r.start r'.start calls ok q.1

printed_pool :
    (std : PmrResources)
    → PoolsAgree std
    → (name name' : Fcstring) (r : MemoryResource)
    → Same
        (print_resource name (std.unsynchronized_pool_resource (print_resource name' r)))
        (std.unsynchronized_pool_resource r)
printed_pool std agree name name' r =
    let pool = std.unsynchronized_pool_resource (print_resource name' r) in
    Same-trans (print_resource name pool) pool (std.unsynchronized_pool_resource r)
      (print_resource-Same name pool)
      (agree (print_resource name' r) r (print_resource-Same name' r))

-- The resources of the cache map and of the vectors hand out the same blocks in a debug build, which
-- prints every call, as in a release, whatever is asked of them, as long as no empty block is
-- given back. The pools of the standard library have to agree where their upstreams do.
pub map_memory_pool_lem :
    (std : PmrResources) (calls : List Call)
    → PoolsAgree std
    → NoneEmpty calls
    → (addresses (map_memory_pool std true) (map_memory_pool std true).start calls
        ≡ addresses (map_memory_pool std false) (map_memory_pool std false).start calls)
      × (addresses (vector_memory_pool std true) (vector_memory_pool std true).start calls
          ≡ addresses (vector_memory_pool std false) (vector_memory_pool std false).start calls)
      × (addresses (vector_memory_alloc std true) (vector_memory_alloc std true).start calls
          ≡ addresses (vector_memory_alloc std false) (vector_memory_alloc std false).start calls)
unfolding map_memory_pool vector_memory_pool vector_memory_alloc
map_memory_pool_lem std calls agree ok =
    let mono = std.monotonic_buffer_resource 1024 in
    (
      started_alike _ _ (printed_pool std agree map_pool map_mono mono) calls ok,
      started_alike _ _ (printed_pool std agree value_pool value_mono mono) calls ok,
      started_alike _ _ (agree _ _ (print_resource-Same value_mono mono)) calls ok,
    )
