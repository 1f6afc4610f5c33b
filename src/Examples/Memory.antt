-- ===== src/Examples/Memory.antt =====
-- The theorems on the printing of a block at concrete bytes.
use mathlib.Core.Option
use fcache.Base.{ℕ, zero, suc, ◌+◌, true, false, ◌≡◌, refl, List, [], ◌∷◌, ◌++◌, some, arith}
use fcache.Value.{Fcstring}
use fcache.Memory.{truncated_mark, format_destroyed_bytes}
use fcache.Memory.Resource.{
  MemoryResource, PmrResources, map_memory_pool, vector_memory_pool, vector_memory_alloc,
}
use fcache.Memory.Resource.Chains.{Call, allocating, deallocating, addresses, map_memory_pool_lem}
use fcache.Memory.Printed.{format_destroyed_bytes_text, format_destroyed_bytes_truncated}

format_destroyed_bytes_text_example :
    format_destroyed_bytes (99 ∷ 97 ∷ 116 ∷ []) ≡ some (32 ∷ 34 ∷ 99 ∷ 97 ∷ 116 ∷ 34 ∷ [])
format_destroyed_bytes_text_example =
    format_destroyed_bytes_text 99 97 (116 ∷ []) refl (omega arith)

abbrev zeros : ℕ → List ℕ
zeros zero = []
zeros (suc n) = 0 ∷ zeros n

format_destroyed_bytes_truncated_example :
    (text : Fcstring) × (format_destroyed_bytes (zeros 33) ≡ some text)
    × (format_destroyed_bytes (zeros 40) ≡ some (text ++ truncated_mark))
format_destroyed_bytes_truncated_example = format_destroyed_bytes_truncated (zeros 40) (omega arith)

-- A resource that hands out one block behind the other, and takes none back.
abbrev bump : ℕ → MemoryResource
bump size = record {
  State = ℕ;
  start = size;
  allocate = λ bytes alignment s. (s + bytes, s);
  deallocate = λ p block alignment s. some s;
}

abbrev resources : PmrResources
resources = record { monotonic_buffer_resource = bump; unsynchronized_pool_resource = λ r. r }

-- Two blocks, of which the first is given back.
abbrev calls : List Call
calls = allocating 16 8 ∷ allocating 4 4 ∷ deallocating 1024 (99 ∷ 97 ∷ []) 8 ∷ allocating 1 1 ∷ []

map_memory_pool_lem_example :
    (addresses (map_memory_pool resources true) (map_memory_pool resources true).start calls
      ≡ addresses (map_memory_pool resources false) (map_memory_pool resources false).start calls)
    × (addresses (vector_memory_pool resources true) (vector_memory_pool resources true).start calls
        ≡ addresses
            (vector_memory_pool resources false)
            (vector_memory_pool resources false).start
            calls)
    × (addresses
          (vector_memory_alloc resources true)
          (vector_memory_alloc resources true).start
          calls
        ≡ addresses
            (vector_memory_alloc resources false)
            (vector_memory_alloc resources false).start
            calls)
map_memory_pool_lem_example = map_memory_pool_lem resources calls (λ r r' q. q) (omega arith, tt)

addresses_run :
    addresses (map_memory_pool resources false) (map_memory_pool resources false).start calls
    ≡ some (1024 ∷ 1040 ∷ 1044 ∷ [])
unfolding addresses map_memory_pool Option.bind
addresses_run = refl
