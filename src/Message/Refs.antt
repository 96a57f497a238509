-- ===== src/Message/Refs.antt =====
-- The reference count of a message: eaf_msg_add_ref and eaf_msg_dec_ref.
use eaf.Prelude.{
  ℕ, zero, suc, ◌+◌, ◌-◌, ◌%◌, ◌^◌, ◌≤◌, ◌<◌, ◌≡◌, ap, sym, ◌∙◌, none, some, false, Option, arith,
  ◌==◌, if◌then◌else◌,
}
use eaf.Message.Memory.{update_twice, update_same, update_at, load_ok}
use eaf.Message.{Ptr, Msg, Memory, update, M, ◌>>=◌, ◌>>◌, pure, add_ref, dec_ref}

-- `n` calls in a row.
abbrev pub times : ℕ → M (Unit {0}) → M (Unit {0})
times zero m = pure tt
times (suc n) m = m >> times n m

minus_one : (c : ℕ) → suc c < 2 ^ 64 → (suc c + 2 ^ 64 - 1) % 2 ^ 64 ≡ c
minus_one c h = omega arith

-- The message with another count.
abbrev pub counted : Msg → ℕ → Msg
counted m n = record m { refcnt = n }

-- What a count of `n` leaves in memory: the message, or nothing.
abbrev pub held : Msg → ℕ → Option Msg
held m n = if n == 0 then none else some (counted m n)

pub held_pos : (m : Msg) (n : ℕ) → 0 < n → held m n ≡ some (counted m n)
held_pos m n h = ground arith

suc_nonzero : (n : ℕ) → (suc n == 0) ≡ false
suc_nonzero n = ground arith

module _ (p : Ptr) (m : Msg) where
  count : {a b : ℕ} → a ≡ b → some (counted m a) ≡ some (counted m b)
  count e = ap (λ n. some (counted m n)) e

  pub add_ref_step :
      (h : Memory) (c : ℕ)
      → h p ≡ some (counted m c)
      → suc c < 2 ^ 64
      → add_ref p h ≡ some (tt, update h p (some (counted m (suc c))))
  unfolding add_ref
  add_ref_step h c e small = ground arith

  pub dec_ref_step :
      (h : Memory) (c : ℕ)
      → h p ≡ some (counted m (suc c))
      → suc c < 2 ^ 64
      → dec_ref p h ≡ some (tt, update h p (held m c))
  unfolding dec_ref
  dec_ref_step h zero e small =
      rw (load_ok p h e, ◌>>=◌, update_twice h p (some (counted m 0)) none)
  dec_ref_step h (suc c) e small = rw (load_ok p h e, ◌>>=◌, minus_one (suc c) small, suc_nonzero c)

  -- Every call but the last finds the message, so none of them faults.
  add_refs :
      (k : ℕ) (h : Memory) (c : ℕ)
      → h p ≡ some (counted m c)
      → c + k < 2 ^ 64
      → times k (add_ref p) h ≡ some (tt, update h p (some (counted m (c + k))))
  add_refs zero h c e small =
      let kept = e ∙ ap (λ n. some (counted m n)) (let z : c ≡ c + 0 = omega arith in z) in
      ap (λ g. some (tt, g)) (sym (update_same h p _ kept))
  add_refs (suc k) h c e small =
      let h' = update h p (some (counted m (suc c))) in
      rw (add_ref_step h c e (omega arith), ◌>>=◌)
        (add_refs k h' (suc c) (update_at h p _) (omega arith)
          ∙ ap (λ g. some (tt, g)) (update_twice h p _ _)
          ∙ ap (λ n. some (tt, update h p (some (counted m n)))) (omega arith))

  dec_refs :
      (k : ℕ) (h : Memory) (c : ℕ)
      → h p ≡ some (counted m (c + suc k))
      → c + suc k < 2 ^ 64
      → times (suc k) (dec_ref p) h ≡ some (tt, update h p (held m c))
  dec_refs zero h c e small = rw (dec_ref_step h c (e ∙ count (omega arith)) (omega arith), ◌>>=◌)
  dec_refs (suc k) h c e small =
      let h' = update h p (held m (c + suc k)) in
      rw (dec_ref_step h (c + suc k) (e ∙ count (omega arith)) (omega arith), ◌>>=◌)
        (dec_refs k h' c (update_at h p _ ∙ held_pos m (c + suc k) (omega arith)) (omega arith)
          ∙ ap (λ g. some (tt, g)) (update_twice h p _ _))

  -- A message is freed by exactly as many eaf_msg_dec_ref calls as it has references: after `k`
  -- eaf_msg_add_ref calls on a message with one reference, `suc d` eaf_msg_dec_ref calls with
  -- `d ≤ k` run without a fault and leave it with `k - d` references, which is freed at `d ≡ k`;
  -- no other message changes.
  pub freed_at_last_ref :
      (k d : ℕ) (h : Memory)
      → h p ≡ some (counted m 1)
      → suc k < 2 ^ 64
      → d ≤ k
      → (times k (add_ref p) >> times (suc d) (dec_ref p)) h
        ≡ some (tt, update h p (held m (k - d)))
  freed_at_last_ref k d h e small le =
      rw (add_refs k h 1 e (omega arith), ◌>>=◌)
        (dec_refs d (update h p (some (counted m (1 + k)))) (k - d)
            (update_at h p _ ∙ count (omega arith)) (omega arith)
          ∙ ap (λ g. some (tt, g)) (update_twice h p _ _))
