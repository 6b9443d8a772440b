-- ===== src/Mem.antt =====
-- The byte loops of os/src/lib/mem.c and os/src/lib/string.c, over arrays as lists.
pub mod Laws
pub mod Strings
mod Tests
use abel_os.Base.{
  ◌-◌, ◌^◌, Option, none, some, u32, ℕ, zero, suc, ◌+◌, List, [], ◌∷◌, ◌==◌, if◌then◌else◌, get_or,
  set,
}

-- The loop of `memset` at index `i`, with `left` rounds to go; `dst` is the index where the
-- destination starts.
pub memset_from : ℕ → ℕ → ℕ → ℕ → List ℕ → List ℕ
memset_from zero i val dst bytes = bytes
memset_from (suc left) i val dst bytes = memset_from left (i + 1) val dst (set bytes (dst + i) val)

pub memset : ℕ → ℕ → ℕ → List ℕ → List ℕ
memset val dst len bytes = memset_from len 0 val dst bytes

-- The loop of `memcpy` within one array, from index `src` to index `dst`.
pub memcpy_from : ℕ → ℕ → ℕ → ℕ → List ℕ → List ℕ
memcpy_from zero i src dst bytes = bytes
memcpy_from (suc left) i src dst bytes =
    memcpy_from left (i + 1) src dst (set bytes (dst + i) (get_or bytes (src + i) 0))

pub memcpy : ℕ → ℕ → ℕ → List ℕ → List ℕ
memcpy src dst len bytes = memcpy_from len 0 src dst bytes

-- The loop of `strlen` over the bytes from the pointer on.
pub strlen_from : List ℕ → ℕ → ℕ
strlen_from [] res = res
strlen_from (b ∷ str) res =
    let rest = strlen_from str (u32 (res + 1)) in if b == 0 then res else rest

-- `none` is the null pointer, for which it returns -1 as a `uint32_t`.
pub strlen : Option (List ℕ) → ℕ
strlen none = 2 ^ 32 - 1
strlen (some str) = strlen_from str 0
