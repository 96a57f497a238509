-- ===== src/Service/Invariant.antt =====
-- The invariant of a group between the critical sections: its lists agree with the states of its
-- services, and no service that is idle has work.
use eaf.Prelude.Int.{ℤ}
use eaf.Errno
use eaf.Errno.{eq_int}
use eaf.Service.Life.{post_group}
use eaf.Prelude.{
  Bool, true, false, ◌+◌, ℕ, ◌≡◌, refl, sym, ap, ◌∙◌, none, some, ◌==◌, if◌then◌else◌, get_elem?,
  set, arith, Bool-cases, inl, inr, subst,
}
use eaf.Sequence.{push_back}
use eaf.Service.{State, init1, init2, idle, busy, yield, exit0, Record, Service, Group}
use eaf.Service.Locked.{put_service, set_state_of, enqueue, resume_service}
use eaf.Service.Locked.Lists.{
  IsListed, same_lists, enqueue-IsListed, resume_service-IsListed, put_service-IsListed,
  get_elem?-set,
}
use eaf.Service.Locked.Settled.{
  IsSettled, enqueue-IsSettled, resume_service-IsSettled, put_service-IsSettled, set_state_of-table,
  set-set,
}
use eaf.Service.Stable.{IsStable, posted_if}

abbrev pub IsSound : ℕ → Group → Type 0
IsSound gi g = IsListed g × IsSettled g

-- Service `si0` of group `gi0` has no current message.
abbrev pub IsFree : ℕ → ℕ → ℕ → Group → Type 0
IsFree gi0 si0 gi g = gi ≡ gi0 → (s : Service) → get_elem? g.table si0 ≡ some s → s.cur_msg ≡ none

abbrev pub IsSoundFree : ℕ → ℕ → ℕ → Group → Type 0
IsSoundFree gi0 si0 gi g = IsSound gi g × IsFree gi0 si0 gi g

pub sem-IsSound : (gi : ℕ) (g : Group) (n : ℕ) → IsSound gi g → IsSound gi (record g { sem = n })
sem-IsSound gi g n p = (same_lists g (record g { sem = n }) refl refl refl p.0, p.1)

-- A post does not matter.
posted_if-IsSound : (gi : ℕ) (out : ℤ × Group) → IsSound gi out.1 → IsSound gi (posted_if out)
posted_if-IsSound gi (ret, g) p = by_result (eq_int ret Errno.success)
  where
    by_result : (ok : Bool) → IsSound gi (if ok then post_group g else g)
    by_result true = sem-IsSound gi g (g.sem + 1) p
    by_result false = p

pub stable-IsSound : IsStable IsSound
stable-IsSound = record {
  posted = λ gi g p. sem-IsSound gi g (g.sem + 1) p;
  yielded = λ gi g cc0 fn arg p. (
    same_lists g (record g { cc0 = cc0; yield_hook = fn; yield_arg = arg }) refl refl refl p.0,
    p.1,
  );
  enqueued = λ gi si g s r at p.
      posted_if-IsSound gi (enqueue g si s r)
        (enqueue-IsListed g si s at p.0 r, enqueue-IsSettled g si s at p.1 r);
  resumed = λ gi si g s at p.
      posted_if-IsSound gi (resume_service g si s)
        (resume_service-IsListed g si s at p.0, resume_service-IsSettled g si s at p.1);
  branched = λ gi si g s branch at p. (
    put_service-IsListed g si s at p.0 (record s { branch = branch }) refl,
    put_service-IsSettled g si s (record s { branch = branch }) at p.1 (p.1 si s at),
  );
}

-- A write of one service that does not touch the current message.
module _ (g : Group) (i : ℕ) (s : Service) (at : get_elem? g.table i ≡ some s)
    (gi0 si0 gi : ℕ) where
  set-IsFree :
      (g' : Group) (s' : Service)
      → g'.table ≡ set g.table i s'
      → (s.cur_msg ≡ none → s'.cur_msg ≡ none)
      → IsFree gi0 si0 gi g
      → IsFree gi0 si0 gi g'
  set-IsFree g' s' written cur v here t e = elim (Bool-cases (si0 == i)) [
    | inl same ↦
        let si_eq : si0 ≡ i = ground arith in
        let s_free = v here s (rw si_eq at) in
        subst (λ x. x.cur_msg ≡ none) (some_is s' t (sym (got ∙ rw same) ∙ e)) (cur s_free)
    | inr other ↦ v here t (sym (got ∙ rw other) ∙ e)
  ]
    where
      some_is : (a b : Service) → some a ≡ some b → a ≡ b
      some_is a b q = cc

      got : get_elem? g'.table si0 ≡ (if si0 == i then some s' else get_elem? g.table si0)
      got = rw written (get_elem?-set g.table i si0 s' s at)

  pub set_state_of-IsFree :
      (state : State) → IsFree gi0 si0 gi g → IsFree gi0 si0 gi (set_state_of g i s state)
  set_state_of-IsFree state =
      set-IsFree (set_state_of g i s state) (record s { state = state })
        (set_state_of-table g i s state) (λ e. e)

  enqueue-IsFree : (r : Record) → IsFree gi0 si0 gi g → IsFree gi0 si0 gi (enqueue g i s r).1
  unfolding enqueue
  enqueue-IsFree r v = by_state s.state refl
    where
      woken :
          (state : State)
          → set
              (set g.table i (record s { state = state }))
              i
              (record s { state = state; queue = push_back s.queue r })
            ≡ set g.table i (record s { state = state; queue = push_back s.queue r })
      woken state = set-set g.table i _ _

      written :
          (state : State)
          → set
              (set_state_of g i s state).table
              i
              (record s { state = state; queue = push_back s.queue r })
            ≡ set g.table i (record s { state = state; queue = push_back s.queue r })
      written state =
          ap (λ t. set t i (record s { state = state; queue = push_back s.queue r }))
            (set_state_of-table g i s state)
          ∙ woken state

      plain : IsFree gi0 si0 gi (put_service g i (record s { queue = push_back s.queue r }))
      plain =
          set-IsFree (put_service g i (record s { queue = push_back s.queue r }))
            (record s { queue = push_back s.queue r }) refl (λ e. e) v

      moved :
          (state : State)
          → IsFree gi0 si0 gi (
              put_service
                (set_state_of g i s state)
                i
                (record s { state = state; queue = push_back s.queue r }))
      moved state =
          set-IsFree
            (put_service (set_state_of g i s state) i
              (record s { state = state; queue = push_back s.queue r }))
            (record s { state = state; queue = push_back s.queue r }) (written state) (λ e. e) v

      by_state : (state : State) → s.state ≡ state → IsFree gi0 si0 gi (enqueue g i s r).1
      by_state exit0 e = rw (e, enqueue) v
      by_state init2 e = rw (e, enqueue) (moved init1)
      by_state idle e = rw (e, enqueue) (moved busy)
      by_state _ e = rw (e, enqueue) plain

  resume_service-IsFree : IsFree gi0 si0 gi g → IsFree gi0 si0 gi (resume_service g i s).1
  unfolding resume_service
  resume_service-IsFree v = by_state s.state refl
    where
      by_state : (state : State) → s.state ≡ state → IsFree gi0 si0 gi (resume_service g i s).1
      by_state yield e = rw (e, resume_service) (set_state_of-IsFree busy v)
      by_state _ e = rw (e, resume_service) v

posted_if-IsFree :
    (gi0 si0 gi : ℕ) (out : ℤ × Group) → IsFree gi0 si0 gi out.1 → IsFree gi0 si0 gi (posted_if out)
posted_if-IsFree gi0 si0 gi (ret, g) v = by_result (eq_int ret Errno.success)
  where
    by_result : (ok : Bool) → IsFree gi0 si0 gi (if ok then post_group g else g)
    by_result true = v
    by_result false = v

pub stable-IsSoundFree : (gi0 si0 : ℕ) → IsStable (IsSoundFree gi0 si0)
stable-IsSoundFree gi0 si0 = record {
  posted = λ gi g p. (stable-IsSound.posted gi g p.0, p.1);
  yielded = λ gi g cc0 fn arg p. (stable-IsSound.yielded gi g cc0 fn arg p.0, p.1);
  enqueued = λ gi si g s r at p. (
    stable-IsSound.enqueued gi si g s r at p.0,
    posted_if-IsFree gi0 si0 gi (enqueue g si s r) (enqueue-IsFree g si s at gi0 si0 gi r p.1),
  );
  resumed = λ gi si g s at p. (
    stable-IsSound.resumed gi si g s at p.0,
    posted_if-IsFree gi0 si0 gi (resume_service g si s)
        (resume_service-IsFree g si s at gi0 si0 gi p.1),
  );
  branched = λ gi si g s branch at p. (
    stable-IsSound.branched gi si g s branch at p.0,
    set-IsFree g si s at gi0 si0 gi (put_service g si (record s { branch = branch }))
        (record s { branch = branch }) refl (λ e. e) p.1,
  );
}
