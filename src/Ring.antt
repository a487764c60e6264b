-- ===== src/Ring.antt =====
-- cmd/gokd-mcp/ring.go, type `ring`: a circular buffer whose entries carry sequence numbers.
-- The mutex makes each method one atomic step; a method returns the new ring beside its result.
-- `uint64` sequence numbers wrap at 2^64. Indices and sizes are bounded by the slice's length.
pub mod Window
pub mod Refine
pub mod Reads
use go_kd.Prelude.{
  ℕ, zero, suc, ◌+◌, ◌-◌, ◌%◌, ◌^◌, Bool, ◌||◌, Option, none, some, List, [], ◌∷◌, ltb, leb, ◌==◌,
  if◌then◌else◌, get_or, set, replicate,
}
use go_kd.Prelude.Int.{ℤ, below, to_ℕ}

abbrev pub u64 : ℕ → ℕ
u64 n = n % 2 ^ 64

pub record RingEntry {ℓ} (T : Type ℓ) : Type ℓ where
  pub seq : ℕ
  pub val : T

pub record Ring {ℓ} (T : Type ℓ) : Type ℓ where
  pub cap : ℕ
  pub next_seq : ℕ
  pub head_seq : ℕ
  pub entries : List (RingEntry T)
  pub head : ℕ
  pub size : ℕ

-- `blank` is the zero value of the element type, which fills a fresh slice.
module _ {ℓ} {T : Type ℓ} (blank : T) where
  abbrev pub blank_entry : RingEntry T
  blank_entry = record { seq = 0; val = blank }

  pub new_ring : ℤ → Ring T
  new_ring capacity =
      let cap = if below capacity 1 then 1 else to_ℕ capacity in
      record {
        cap = cap;
        next_seq = 1;
        head_seq = 0;
        entries = replicate cap blank_entry;
        head = 0;
        size = 0;
      }

  -- `r.entries[idx].val` for `idx = (r.head + k) % r.cap`
  abbrev pub val_at : Ring T → ℕ → T
  val_at r k = (get_or r.entries ((r.head + k) % r.cap) blank_entry).val

  -- the loop of `copyFrom`, with `n` rounds left and `k = skip + i`
  pub copy_loop : Ring T → ℕ → ℕ → List T
  copy_loop r k zero = []
  copy_loop r k (suc n) = val_at r k ∷ copy_loop r (k + 1) n

  pub copy_from : Ring T → ℕ → List T
  unfolding copy_loop
  copy_from r start_seq =
      if ltb start_seq r.head_seq || leb r.next_seq start_seq
      then []
      else let skip = start_seq - r.head_seq in
        let count = r.size - skip in if leb count 0 then [] else copy_loop r skip count

  pub since : Ring T → ℕ → List T × ℕ
  since r token =
      let start_seq = u64 (token + 1) in
      if r.size == 0
      then ([], 0)
      else if ltb start_seq r.head_seq
      then (copy_from r r.head_seq, r.head_seq - start_seq)
      else if leb r.next_seq start_seq
      then ([], 0)
      else (copy_from r start_seq, 0)

  -- `(zero, false)` is `none`.
  pub last : Ring T → Option T
  last r = if r.size == 0 then none else some (val_at r (r.size - 1))

module _ {ℓ} {T : Type ℓ} where
  pub push_locked : Ring T → T → Ring T × ℕ
  push_locked r v =
      let seq = r.next_seq in
      let entry : RingEntry T = record { seq = seq; val = v } in
      if ltb r.size r.cap
      then (
        record r {
          next_seq = u64 (seq + 1);
          entries = set r.entries ((r.head + r.size) % r.cap) entry;
          size = r.size + 1;
          head_seq = if r.size + 1 == 1 then seq else r.head_seq;
        },
        seq,
      )
      else (
        record r {
          next_seq = u64 (seq + 1);
          entries = set r.entries r.head entry;
          head = (r.head + 1) % r.cap;
          head_seq = u64 (r.head_seq + 1);
        },
        seq,
      )

  pub push : Ring T → T → Ring T × ℕ
  push r v = push_locked r v

  unfoldable pub push_with : Ring T → (ℕ → T) → Ring T × ℕ
  push_with r build = push_locked r (build r.next_seq)

  pub len : Ring T → ℕ
  len r = r.size
