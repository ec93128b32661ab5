-- ===== src/Ring/Window.antt =====
-- The bytes that a ring buffer holds, and its invariant.
use esp_qcloud.Prelude.{
  ℕ, zero, suc, ◌+◌, ◌-◌, ◌%◌, ◌≤◌, ◌<◌, ◌≡◌, ◌≢◌, refl, ap, ◌∙◌, arith, false, List, [], ◌∷◌, ◌++◌,
  length, length-set, get_or, set, get_or-set_self, get_or-set_ne, ltb, leb, ◌==◌, if◌then◌else◌,
}
use native.Mathlib.Nat.{mod-eq_of_lt, mod-eq-sub-mod}
use native.Mathlib.Decide.{dec_lt}
use esp_qcloud.Ring.{Ringbuff, step_write, step_read, put}

pub record IsValid (r : Ringbuff) : Type 0 where
  pub storage : r.size ≤ length r.buffer
  pub nonempty : 0 < r.size
  pub reads_in : r.readpoint < r.size
  pub writes_in : r.writepoint < r.size

-- The place behind a place.
abbrev pub next : ℕ → ℕ → ℕ
next size i = if i == size - 1 then 0 else i + 1

-- The `n` bytes behind a place, going round.
abbrev pub window : List ℕ → ℕ → ℕ → ℕ → List ℕ
window buf size i zero = []
window buf size i (suc n) = get_or buf (next size i) 0 ∷ window buf size (next size i) n

-- How many bytes the ring holds.
abbrev pub held : Ringbuff → ℕ
held r =
    if leb r.readpoint r.writepoint
    then r.writepoint - r.readpoint
    else r.size + r.writepoint - r.readpoint

abbrev pub contents : Ringbuff → List ℕ
contents r = window r.buffer r.size r.readpoint (held r)

pub length-window : (buf : List ℕ) (size i n : ℕ) → length (window buf size i n) ≡ n
length-window buf size i zero = refl
length-window buf size i (suc n) = ap suc (length-window buf size (next size i) n)

-- The place `n` behind a place.
abbrev ahead : ℕ → ℕ → ℕ → ℕ
ahead size i n = if ltb (i + n) size then i + n else i + n - size

-- A byte that is written just behind a window extends it.
pub window-set :
    (buf : List ℕ) (size i n x k : ℕ)
    → size ≤ length buf
    → i < size
    → suc n < size
    → k ≡ ahead size i (suc n)
    → window (set buf k x) size i (suc n) ≡ window buf size i n ++ (x ∷ [])
window-set buf size i zero x k st hi hn e = ground (arith, get_or-set_self buf k x 0)
window-set buf size i (suc n) x k st hi hn e =
    ground (arith, get_or-set_ne buf k (next size i) x 0, window-set buf size (next size i) n x k)

pub put-IsValid : (r : Ringbuff) (x : ℕ) → IsValid r → IsValid (put r x)
unfolding put step_write
put-IsValid r x v = ground (arith, length-set r.buffer (step_write r) x)

room-lt :
    (r : Ringbuff) → IsValid r → next r.size r.writepoint ≢ r.readpoint → suc (held r) < r.size
room-lt r v room = ground arith

held-put :
    (r : Ringbuff) (x : ℕ)
    → IsValid r
    → next r.size r.writepoint ≢ r.readpoint
    → held (put r x) ≡ suc (held r)
unfolding put step_write
held-put r x v room = ground arith

step_write-ahead :
    (r : Ringbuff)
    → IsValid r
    → next r.size r.writepoint ≢ r.readpoint
    → step_write r ≡ ahead r.size r.readpoint (suc (held r))
unfolding step_write
step_write-ahead r v room = ground arith

-- A byte that is put into a ring with room goes to the end of what it holds.
contents-put :
    (r : Ringbuff) (x : ℕ)
    → IsValid r
    → (next r.size r.writepoint ≢ r.readpoint)
    → contents (put r x) ≡ contents r ++ (x ∷ [])
unfolding put step_write
contents-put r x v room =
    ap (window (set r.buffer (step_write r) x) r.size r.readpoint) (held-put r x v room)
    ∙ window-set r.buffer r.size r.readpoint (held r) x (step_write r) v.storage v.reads_in
        (room-lt r v room) (step_write-ahead r v room)

step_mod : (size w : ℕ) → w < size → (w + 1) % size ≡ next size w
step_mod size w h = elim (dec_lt (w + 1) size) [
  | yes p ↦ ground (arith, mod-eq_of_lt p)
  | no p ↦ ground (
    arith,
    mod-eq-sub-mod {n = w + 1} {m = size} (omega arith),
    mod-eq_of_lt {n = w + 1 - size} {m = size} (omega arith),
  )
]

pub put_room :
    (r : Ringbuff) (x : ℕ)
    → IsValid r
    → (held r == r.size - 1) ≡ false
    → (contents (put r x) ≡ contents r ++ (x ∷ [])) × (held (put r x) ≡ suc (held r))
put_room r x v n =
    let room : next r.size r.writepoint ≢ r.readpoint = ground arith in
    (contents-put r x v room, held-put r x v room)

-- A ring is full exactly when the place behind its writepoint is its readpoint.
pub held_full :
    (r : Ringbuff)
    → IsValid r
    → ((r.writepoint + 1) % r.size == r.readpoint) ≡ (held r == r.size - 1)
held_full r v = rw (step_mod r.size r.writepoint v.writes_in) (ground arith)

pub held_empty : (r : Ringbuff) → IsValid r → (r.writepoint == r.readpoint) ≡ (held r == 0)
held_empty r v = ground arith

pub held_bound : (r : Ringbuff) → IsValid r → held r ≤ r.size - 1
held_bound r v = ground arith

-- Reading moves to the next byte.
pub contents-read :
    (r : Ringbuff) (n : ℕ)
    → IsValid r
    → held r ≡ suc n
    → let r' = record r { readpoint = step_read r } in
      IsValid r' × (held r' ≡ n) × (contents r ≡ get_or r.buffer (step_read r) 0 ∷ contents r')
unfolding step_read
contents-read r n v e =
    let r' = record r { readpoint = step_read r } in
    let one : held r' ≡ n = ground arith in
    (
      record {
        storage = v.storage;
        nonempty = v.nonempty;
        reads_in = ground arith;
        writes_in = v.writes_in;
      },
      one,
      rw (e, one) refl,
    )
