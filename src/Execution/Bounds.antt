-- ===== src/Execution/Bounds.antt =====
-- What the loop keeps: every observation is in the journal, within the signed budgets, and every
-- action is within the signed scope.
use software_blueprint_hub.Shared.{
  ℕ, zero, suc, ◌+◌, ◌-◌, ◌≤◌, String, ◌≡◌, refl, ap, ◌∙◌, ◌⊎◌, inl, inr, Bool, true, false, Option,
  none, some, List, [], ◌∷◌, ◌++◌, leb, leb→le, length, length-append, All, All-append, includes,
  Result, ok, err, arith, Bool-cases, and_parts,
}
use software_blueprint_hub.Execution.{
  AttemptResult, AttemptRecord, RecordOutcome, ReportStatus, ExecutionReport, Services,
}
use software_blueprint_hub.Execution.Loop.{
  LoopState, Turn, stop, again, Request, finish, action_of, failure_record, result_record, conclude,
  has_succeeded, then_turn, give_up, is_acceptable, settle, proceed, start, turn, run_attempts,
  exhausted, valid_result,
}
use software_blueprint_hub.Execution.Recorded.{
  tokens, tokens-append, IsScoped, IsNumbered, IsNumbered-append, IsRecorded, IsBounded, IsRunning,
  finish-IsBounded,
}

module _ (v : Services) where
  -- An action is executed whose attempt is not yet recorded.
  record IsExecuting (q : Request) (s : LoopState) (w : v.World) : Type 0 where
    journaled : v.journal q.request_id w ≡ s.attempts
    executed : length (v.actions q.request_id w) ≡ length s.attempts + 1
    scoped : All (IsScoped q) (v.actions q.request_id w)
    numbered : IsNumbered 1 (v.actions q.request_id w)
    next : s.next ≡ length s.attempts + 1
    spent : tokens s.attempts ≡ s.total_tokens
    affordable : s.total_tokens ≤ q.grant.max_token_estimate

  abbrev IsGoodTurn : Request → LoopState → Turn → v.World → Type 0
  IsGoodTurn q s (stop (err thrown)) w = Unit
  IsGoodTurn q s (stop (ok r)) w = IsBounded v q r w × (r.attempts ≤ length s.attempts + 1)
  IsGoodTurn q s (again s') w = IsRunning v q s' w × (length s'.attempts ≡ length s.attempts + 1)

  stop-IsGoodTurn :
      (q : Request) (s : LoopState) (r : AttemptRecord) (w : v.World) (status : ReportStatus)
      (reason : String)
      → IsRecorded v q (s.attempts ++ (r ∷ [])) w
      → IsGoodTurn q s (stop (ok (finish q (s.attempts ++ (r ∷ [])) status reason))) w
  stop-IsGoodTurn q s r w status reason k =
      (finish-IsBounded v q _ w status reason k, omega (arith, length-append s.attempts (r ∷ [])))

  append-IsRecorded :
      (q : Request) (s : LoopState) (r : AttemptRecord) (w : v.World)
      → IsExecuting q s w
      → s.total_tokens + r.tokens_used ≤ q.grant.max_token_estimate
      → (v.append q.request_id r w).0 ≡ ok tt
      → IsRecorded v q (s.attempts ++ (r ∷ [])) (v.append q.request_id r w).1
  append-IsRecorded q s r w k within done =
      let same = v.actions-append q.request_id r w in
      record {
        journaled = v.journal-append q.request_id r w done ∙ ap (λ x. x ++ (r ∷ [])) k.journaled;
        executed = rw (same, length-append s.attempts (r ∷ [])) k.executed;
        scoped = rw same k.scoped;
        numbered = rw same k.numbered;
        affordable = omega (arith, tokens-append s.attempts r, k.spent);
      }

  then_turn-IsGoodTurn :
      (q : Request) (s : LoopState) (a : Result (Unit {0}) × v.World) (t : Turn)
      → (a.0 ≡ ok tt → IsGoodTurn q s t a.1)
      → IsGoodTurn q s (then_turn v a t).0 (then_turn v a t).1
  then_turn-IsGoodTurn q s (err thrown, w) t good = tt
  then_turn-IsGoodTurn q s (ok done, w) t good = good refl

  give_up-IsGoodTurn :
      (q : Request) (s : LoopState) (outcome : RecordOutcome) (reason : String) (w : v.World)
      → IsExecuting q s w
      → IsGoodTurn q s (give_up v q s outcome reason w).0 (give_up v q s outcome reason w).1
  give_up-IsGoodTurn q s outcome reason w k =
      let r = failure_record s.next outcome in
      then_turn-IsGoodTurn q s (v.append q.request_id r w) _ (λ done.
        stop-IsGoodTurn q s r _ _ reason
          (append-IsRecorded q s r w k (omega (arith, k.affordable)) done))

  conclude-IsGoodTurn :
      (q : Request) (s : LoopState) (r : AttemptResult) (w : v.World)
      → IsRecorded v q (s.attempts ++ (result_record s.next r ∷ [])) w
      → tokens s.attempts ≡ s.total_tokens
      → s.next ≡ length s.attempts + 1
      → IsGoodTurn q s (conclude q s r) w
  unfolding conclude
  conclude-IsGoodTurn q s r w k spent next =
      let x = result_record s.next r in
      elim (Bool-cases (has_succeeded r.outcome)) [
        | inl e ↦ rw e (stop-IsGoodTurn q s x w _ _ k)
        | inr e ↦ rw e (elim (Bool-cases (includes s.fingerprints r.observation_digest)) [
          | inl f ↦ rw f (stop-IsGoodTurn q s x w _ _ k)
          | inr f ↦
              rw f
                (elim (Bool-cases
                  (leb q.grant.max_token_estimate (s.total_tokens + r.tokens_used))) [
                    | inl g ↦ rw g (stop-IsGoodTurn q s x w _ _ k)
                    | inr g ↦ rw g (
                      record {
                        recorded = k;
                        spent = omega (arith, tokens-append s.attempts x, spent);
                        next = omega (arith, length-append s.attempts (x ∷ []), next);
                      },
                      omega (arith, length-append s.attempts (x ∷ [])),
                    )
                  ])
        ])
      ]

  executed-IsExecuting :
      (q : Request) (s : LoopState) (w : v.World)
      → IsRunning v q s w
      → IsExecuting q s (v.execute (action_of q s) w).1
  executed-IsExecuting q s w k =
      let a = action_of q s in
      let more : v.actions q.request_id (v.execute a w).1 ≡ v.actions q.request_id w ++ (a ∷ []) =
        v.actions-execute a w in
      let scope : IsScoped q a = record {
        of_project = refl;
        of_repository = refl;
        of_request = refl;
        of_node = refl;
        of_mode = refl;
        of_paths = refl;
        of_head = refl;
        of_files = refl;
        of_tokens = omega arith;
      } in
      record {
        journaled = v.journal-execute q.request_id a w ∙ k.recorded.journaled;
        executed = rw more (
            length-append (v.actions q.request_id w) (a ∷ [])
            ∙ ap (λ n. n + 1) k.recorded.executed);
        scoped = rw more (
            All-append (IsScoped q) (v.actions q.request_id w) (a ∷ []) k.recorded.scoped
              (scope, tt));
        numbered = rw more (
            IsNumbered-append 1 (v.actions q.request_id w) a k.recorded.numbered
              (omega (arith, k.next, k.recorded.executed)));
        next = k.next;
        spent = k.spent;
        affordable = rw (k.spent) at k.recorded.affordable;
      }

  settle-IsGoodTurn :
      (q : Request) (s : LoopState) (o : Option AttemptResult) (w : v.World)
      → IsExecuting q s w
      → IsGoodTurn q s (settle v q s (o, w)).0 (settle v q s (o, w)).1
  unfolding settle
  settle-IsGoodTurn q s none w k = give_up-IsGoodTurn q s _ _ w k
  settle-IsGoodTurn q s (some r) w k = elim (Bool-cases (is_acceptable v q s r)) [
    | inl e ↦
        let left : r.tokens_used ≤ q.grant.max_token_estimate - s.total_tokens =
          leb→le _ _ (and_parts (valid_result r q.grant) _ e).1 in
        let x = result_record s.next r in
        rw e (
          then_turn-IsGoodTurn q s (v.append q.request_id x w) _ (λ done.
            conclude-IsGoodTurn q s r _
              (append-IsRecorded q s x w k (omega (arith, left, k.affordable)) done) k.spent
              k.next))
    | inr e ↦ rw e (give_up-IsGoodTurn q s _ _ w k)
  ]

  same-IsRecorded :
      (q : Request) (attempts : List AttemptRecord) (w w' : v.World)
      → v.journal q.request_id w' ≡ v.journal q.request_id w
      → v.actions q.request_id w' ≡ v.actions q.request_id w
      → IsRecorded v q attempts w
      → IsRecorded v q attempts w'
  same-IsRecorded q attempts w w' j a k = record {
    journaled = j ∙ k.journaled;
    executed = rw a k.executed;
    scoped = rw a k.scoped;
    numbered = rw a k.numbered;
    affordable = k.affordable;
  }

  same-IsRunning :
      (q : Request) (s : LoopState) (w w' : v.World)
      → v.journal q.request_id w' ≡ v.journal q.request_id w
      → v.actions q.request_id w' ≡ v.actions q.request_id w
      → IsRunning v q s w
      → IsRunning v q s w'
  same-IsRunning q s w w' j a k = record {
    recorded = same-IsRecorded q s.attempts w w' j a k.recorded;
    spent = k.spent;
    next = k.next;
  }

  early-IsGoodTurn :
      (q : Request) (s : LoopState) (w : v.World) (status : ReportStatus) (reason : String)
      → IsRunning v q s w
      → IsGoodTurn q s (stop (ok (finish q s.attempts status reason))) w
  early-IsGoodTurn q s w status reason k =
      (finish-IsBounded v q s.attempts w status reason k.recorded, omega arith)

  proceed-IsGoodTurn :
      (q : Request) (s : LoopState) (current : Bool) (w : v.World)
      → IsRunning v q s w
      → IsGoodTurn q s (proceed v q s (current, w)).0 (proceed v q s (current, w)).1
  proceed-IsGoodTurn q s false w k = early-IsGoodTurn q s w _ _ k
  proceed-IsGoodTurn q s true w k =
      settle-IsGoodTurn q s (v.execute (action_of q s) w).0 (v.execute (action_of q s) w).1
        (executed-IsExecuting q s w k)

  start-IsGoodTurn :
      (q : Request) (s : LoopState) (now : ℕ) (w : v.World)
      → IsRunning v q s w
      → IsGoodTurn q s (start v q s (now, w)).0 (start v q s (now, w)).1
  start-IsGoodTurn q s now w k = elim (Bool-cases (leb q.expires now)) [
    | inl e ↦ rw e (early-IsGoodTurn q s w _ _ k)
    | inr e ↦ rw e (
        proceed-IsGoodTurn q s (v.assert_current w).0 (v.assert_current w).1 (
          same-IsRunning q s w _ (v.journal-assert_current q.request_id w)
            (v.actions-assert_current q.request_id w) k))
  ]

  turn-IsGoodTurn :
      (q : Request) (s : LoopState) (w : v.World)
      → IsRunning v q s w
      → IsGoodTurn q s (turn v q s w).0 (turn v q s w).1
  unfolding turn
  turn-IsGoodTurn q s w k =
      start-IsGoodTurn q s (v.clock w).0 (v.clock w).1
        (same-IsRunning q s w _ (v.journal-clock q.request_id w) (v.actions-clock q.request_id w) k)

  Turn-cases :
      (t : Turn) → ((r : Result ExecutionReport) × (t ≡ stop r)) ⊎ ((s : LoopState) × (t ≡ again s))
  Turn-cases (stop r) = inl (r, refl)
  Turn-cases (again s) = inr (s, refl)

  -- When the loop returns a report, all its observations are in the journal, one for each action
  -- that was executed, within the token budget; every action was within the signed scope; there are
  -- no more attempts than before and iterations that were left; and nothing is certified.
  pub run_attempts-IsBounded :
      (left : ℕ) (q : Request) (s : LoopState) (w w' : v.World) (r : ExecutionReport)
      → IsRunning v q s w
      → run_attempts v left q s w ≡ (ok r, w')
      → IsBounded v q r w' × (r.attempts ≤ length s.attempts + left)
  unfolding run_attempts
  run_attempts-IsBounded zero q s w w' r k h =
      let same : exhausted v q s ≡ r = ground arith in
      let there : w ≡ w' = ap (λ x. x.1) h in
      rw (← same, ← there) (finish-IsBounded v q s.attempts w _ _ k.recorded, omega arith)
  run_attempts-IsBounded (suc left) q s w w' r k h =
      let good = turn-IsGoodTurn q s w k in
      elim (Turn-cases (turn v q s w).0) [
        | inl (o, e) ↦
            let ended : o ≡ ok r = ap (λ x. x.0) (rw e at h) in
            let there : (turn v q s w).1 ≡ w' = ap (λ x. x.1) (rw e at h) in
            let (bounded, one) : IsGoodTurn q s (stop (ok r)) w' = rw (e, ended, there) at good in
            (bounded, omega (arith, one))
        | inr (s', e) ↦
            let (running, one) : IsGoodTurn q s (again s') (turn v q s w).1 = rw e at good in
            let (bounded, fewer) =
              run_attempts-IsBounded left q s' (turn v q s w).1 w' r running (rw e at h) in
            (bounded, omega (arith, one, fewer))
      ]
