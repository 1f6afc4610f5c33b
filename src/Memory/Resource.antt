-- ===== src/Memory/Resource.antt =====
-- `PrintResource`, `MapMemory` and `VectorMemory` of Memory.hpp: chains of memory resources.
--
-- A memory resource is its state and the two calls that change it. A block is given back with its
-- address and the bytes in it, `none` where the behaviour is undefined. The monotonic and the pool
-- resource are the standard library's: they are parameters.
pub mod Same
pub mod Chains
use mathlib.Core.Option
use fcache.Base.{
  ℕ, List, [], ◌∷◌, ◌++◌, Bool, true, false, Option, none, some, length, if◌then◌else◌,
}
use fcache.Value.{Fcstring}
use fcache.Memory.{format_destroyed_bytes}

abbrev pub Address : Type 0
Address = ℕ

pub record MemoryResource : Type 1 where
  pub State : Type 0
  pub start : State
  pub allocate : ℕ → ℕ → State → State × Address
  pub deallocate : Address → List ℕ → ℕ → State → Option State

-- What a PrintResource writes to the log: its name, the size, the alignment and the address of a
-- block, or the address, the size and the bytes of one that is given back.
pub data LogLine : Type 0 where
  alloc_line : Fcstring → ℕ → ℕ → Address → LogLine
  dealloc_line : Fcstring → Address → ℕ → Fcstring → LogLine

-- A PrintResource passes each call on to its upstream, with a line in the log.
module _ (m_name : Fcstring) (m_upstream : MemoryResource) where
  abbrev pub PrintState : Type 0
  PrintState = m_upstream.State × List LogLine

  unfoldable pub do_allocate : ℕ → ℕ → PrintState → PrintState × Address
  do_allocate bytes alignment (s, log) =
      let (s', result) = m_upstream.allocate bytes alignment s in
      ((s', log ++ alloc_line m_name bytes alignment result ∷ []), result)

  unfoldable pub do_deallocate : Address → List ℕ → ℕ → PrintState → Option PrintState
  unfolding format_destroyed_bytes
  do_deallocate p block alignment (s, log) = Option.bind (format_destroyed_bytes block) (λ text.
      Option.map (λ s'. (s', log ++ dealloc_line m_name p (length block) text ∷ []))
        (m_upstream.deallocate p block alignment s))

  abbrev pub print_resource : MemoryResource
  print_resource = record {
    State = PrintState;
    start = (m_upstream.start, []);
    allocate = do_allocate;
    deallocate = do_deallocate;
  }

-- The standard library's resources: one that grows by buffers, the first of a given size, and pools
-- of blocks on top of an upstream.
pub record PmrResources : Type 1 where
  pub monotonic_buffer_resource : ℕ → MemoryResource
  pub unsynchronized_pool_resource : MemoryResource → MemoryResource

-- "Map Mono", "Map Pool", "Value Mono" and "Value Pool"
abbrev pub map_mono : Fcstring
map_mono = 77 ∷ 97 ∷ 112 ∷ 32 ∷ 77 ∷ 111 ∷ 110 ∷ 111 ∷ []

abbrev pub map_pool : Fcstring
map_pool = 77 ∷ 97 ∷ 112 ∷ 32 ∷ 80 ∷ 111 ∷ 111 ∷ 108 ∷ []

abbrev pub value_mono : Fcstring
value_mono = 86 ∷ 97 ∷ 108 ∷ 117 ∷ 101 ∷ 32 ∷ 77 ∷ 111 ∷ 110 ∷ 111 ∷ []

abbrev pub value_pool : Fcstring
value_pool = 86 ∷ 97 ∷ 108 ∷ 117 ∷ 101 ∷ 32 ∷ 80 ∷ 111 ∷ 111 ∷ 108 ∷ []

module _ (std : PmrResources) where
  -- `MapMemory::getPool`, of a debug build or of a release.
  unfoldable pub map_memory_pool : Bool → MemoryResource
  map_memory_pool true = print_resource map_pool (
      std.unsynchronized_pool_resource
        (print_resource map_mono (std.monotonic_buffer_resource 1024)))
  map_memory_pool false = std.unsynchronized_pool_resource (std.monotonic_buffer_resource 1024)

  -- What `VectorMemory::alloc` allocates from: the pool, past the PrintResource in front of it.
  unfoldable pub vector_memory_alloc : Bool → MemoryResource
  vector_memory_alloc true =
      std.unsynchronized_pool_resource
        (print_resource value_mono (std.monotonic_buffer_resource 1024))
  vector_memory_alloc false = std.unsynchronized_pool_resource (std.monotonic_buffer_resource 1024)

  -- `VectorMemory::getPool`
  unfoldable pub vector_memory_pool : Bool → MemoryResource
  unfolding vector_memory_alloc
  vector_memory_pool true = print_resource value_pool (vector_memory_alloc true)
  vector_memory_pool false = vector_memory_alloc false
