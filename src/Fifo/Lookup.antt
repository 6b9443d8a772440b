-- ===== src/Fifo/Lookup.antt =====
-- Lists whose blocks are told apart by address and by pid, and lookups in them.
use abel_os.Base.{sym, ℕ, ◌≡◌, ◌≢◌, refl, false, [], ◌∷◌, ◌++◌, none, some, arith, ◌==◌, ==_refl}
use abel_os.Fifo.{Entry, Procs, load, get_by_pid}

-- No entry has the pid, or the address.
abbrev pub NoId : ℕ → Procs → Type 0
NoId pid [] = Unit {0}
NoId pid (e ∷ es) = (e.pcb.id ≢ pid) × NoId pid es

abbrev pub NoProc : ℕ → Procs → Type 0
NoProc a [] = Unit {0}
NoProc a (e ∷ es) = (e.proc ≢ a) × NoProc a es

-- Every block has an address and a pid of its own, and the address is not null.
abbrev pub AreDistinct : Procs → Type 0
AreDistinct [] = Unit {0}
AreDistinct (e ∷ es) = (e.proc ≢ 0) × NoProc e.proc es × NoId e.pcb.id es × AreDistinct es

pub NoProc-middle :
    {a : ℕ} (xs : Procs) (e : Entry) (ys : Procs) → NoProc a (xs ++ e ∷ ys) → e.proc ≢ a
NoProc-middle [] e ys h = h.0
NoProc-middle (x ∷ xs) e ys h = NoProc-middle xs e ys h.1

pub NoId-middle :
    {pid : ℕ} (xs : Procs) (e : Entry) (ys : Procs) → NoId pid (xs ++ e ∷ ys) → e.pcb.id ≢ pid
NoId-middle [] e ys h = h.0
NoId-middle (x ∷ xs) e ys h = NoId-middle xs e ys h.1

-- The block at a listed address is the one listed there.
pub load-middle :
    (xs : Procs) (e : Entry) (ys : Procs)
    → AreDistinct (xs ++ e ∷ ys)
    → load e.proc (xs ++ e ∷ ys) ≡ some e.pcb
unfolding load
load-middle [] e ys d = rw (==_refl e.proc)
load-middle (x ∷ xs) e ys d =
    let ne = NoProc-middle xs e ys d.1 in
    let other : (x.proc == e.proc) ≡ false = ground arith in rw other (load-middle xs e ys d.3)

pub load-none : (a : ℕ) → load a [] ≡ none
unfolding load
load-none a = refl

pub get_by_pid-middle :
    (xs : Procs) (e : Entry) (ys : Procs)
    → AreDistinct (xs ++ e ∷ ys)
    → get_by_pid e.pcb.id (xs ++ e ∷ ys) ≡ e ∷ ys
unfolding get_by_pid
get_by_pid-middle [] e ys d = rw (==_refl e.pcb.id)
get_by_pid-middle (x ∷ xs) e ys d =
    let ne = NoId-middle xs e ys d.2 in
    let other : (x.pcb.id == e.pcb.id) ≡ false = ground arith in
    rw other (get_by_pid-middle xs e ys d.3)

pub middle_ne_null : (xs : Procs) (e : Entry) (ys : Procs) → AreDistinct (xs ++ e ∷ ys) → e.proc ≢ 0
middle_ne_null [] e ys d = d.0
middle_ne_null (x ∷ xs) e ys d = middle_ne_null xs e ys d.3

-- No live block is found at an address that is not listed.
pub load-NoProc : (a : ℕ) (es : Procs) → NoProc a es → load a es ≡ none
unfolding load
load-NoProc a [] h = refl
load-NoProc a (e ∷ es) h =
    let other : (e.proc == a) ≡ false = let ne = h.0 in ground arith in
    rw other (load-NoProc a es h.1)

-- The others of a list have other addresses.
pub NoProc-drop :
    (xs : Procs) (e : Entry) (ys : Procs) → AreDistinct (xs ++ e ∷ ys) → NoProc e.proc (xs ++ ys)
NoProc-drop [] e ys d = d.1
NoProc-drop (x ∷ xs) e ys d = ((λ h. NoProc-middle xs e ys d.1 (sym h)), NoProc-drop xs e ys d.3)
