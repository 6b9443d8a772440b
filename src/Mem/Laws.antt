-- ===== src/Mem/Laws.antt =====
-- What `memset` and `memcpy` leave at each index.
use abel_os.Base.{
  ℕ, zero, suc, ◌+◌, ◌-◌, ◌≤◌, ◌≡◌, refl, ◌∙◌, ◌&&◌, List, arith, ltb, leb, if◌then◌else◌, get_or,
  set, length, length-set, get_or-set,
}
use abel_os.Mem.{memset_from, memset, memcpy_from, memcpy}

length-memset_from :
    (left i val dst : ℕ) (bytes : List ℕ) → length (memset_from left i val dst bytes) ≡ length bytes
unfolding memset_from
length-memset_from zero i val dst bytes = refl
length-memset_from (suc left) i val dst bytes =
    length-memset_from left (i + 1) val dst (set bytes (dst + i) val)
    ∙ length-set bytes (dst + i) val

pub length-memset :
    (val dst len : ℕ) (bytes : List ℕ) → length (memset val dst len bytes) ≡ length bytes
unfolding memset
length-memset val dst len bytes = length-memset_from len 0 val dst bytes

get_or-memset_from :
    (left i val dst d : ℕ) (bytes : List ℕ) (j : ℕ)
    → dst + i + left ≤ length bytes
    → get_or (memset_from left i val dst bytes) j d
      ≡ (if leb (dst + i) j && ltb j (dst + i + left) then val else get_or bytes j d)
unfolding memset_from
get_or-memset_from zero i val dst d bytes j h = ground arith
get_or-memset_from (suc left) i val dst d bytes j h = ground (
  arith,
  length-set bytes (dst + i) val,
  get_or-memset_from left (i + 1) val dst d (set bytes (dst + i) val) j,
  get_or-set bytes (dst + i) j val d,
)

-- Inside an array `memset` stores `val` at the `len` indices from `dst` on, and nowhere else.
pub get_or-memset :
    (val dst len d : ℕ) (bytes : List ℕ) (j : ℕ)
    → dst + len ≤ length bytes
    → get_or (memset val dst len bytes) j d
      ≡ (if leb dst j && ltb j (dst + len) then val else get_or bytes j d)
unfolding memset
get_or-memset val dst len d bytes j h = ground (arith, get_or-memset_from len 0 val dst d bytes j)

pub length-memcpy_from :
    (left i src dst : ℕ) (bytes : List ℕ) → length (memcpy_from left i src dst bytes) ≡ length bytes
unfolding memcpy_from
length-memcpy_from zero i src dst bytes = refl
length-memcpy_from (suc left) i src dst bytes =
    length-memcpy_from left (i + 1) src dst (set bytes (dst + i) (get_or bytes (src + i) 0))
    ∙ length-set bytes (dst + i) (get_or bytes (src + i) 0)

get_or-memcpy_from :
    (left i src dst : ℕ) (bytes : List ℕ) (j : ℕ)
    → dst ≤ src
    → dst + i + left ≤ length bytes
    → get_or (memcpy_from left i src dst bytes) j 0 ≡ (
        if leb (dst + i) j && ltb j (dst + i + left)
        then get_or bytes (src + (j - dst)) 0
        else get_or bytes j 0)
unfolding memcpy_from
get_or-memcpy_from zero i src dst bytes j b h = ground arith
get_or-memcpy_from (suc left) i src dst bytes j b h =
    let v = get_or bytes (src + i) 0 in
    ground (
      arith,
      length-set bytes (dst + i) v,
      get_or-memcpy_from left (i + 1) src dst (set bytes (dst + i) v) j,
      get_or-set bytes (dst + i) j v 0,
      get_or-set bytes (dst + i) (src + (j - dst)) v 0,
    )

-- Inside an array, towards lower or equal indices, `memcpy` copies the `len` entries from `src` on, also where
-- the two ranges overlap, and writes nowhere else.
pub get_or-memcpy :
    (src dst len : ℕ) (bytes : List ℕ) (j : ℕ)
    → dst ≤ src
    → dst + len ≤ length bytes
    → get_or (memcpy src dst len bytes) j 0 ≡ (
        if leb dst j && ltb j (dst + len)
        then get_or bytes (src + (j - dst)) 0
        else get_or bytes j 0)
unfolding memcpy
get_or-memcpy src dst len bytes j b h = ground (arith, get_or-memcpy_from len 0 src dst bytes j)

pub length-memcpy :
    (src dst len : ℕ) (bytes : List ℕ) → length (memcpy src dst len bytes) ≡ length bytes
unfolding memcpy
length-memcpy src dst len bytes = length-memcpy_from len 0 src dst bytes
