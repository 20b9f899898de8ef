-- ===== src/Constitution/Service/Committed.antt =====
-- What a handler of the constitution service has done when it returns: it was authorized, it moved
-- the amendment it read along the life cycle, and it stored the result at the next version.
use software_blueprint_hub.Shared.{
  ℕ, ◌+◌, String, ◌≡◌, refl, Bool, true, Option, some, arith, ==_refl, ok, found-eq-ok, guard-eq-ok,
  >>=-eq-ok, nat_eq, nat_eq_iff,
}
use software_blueprint_hub.Authority.{
  AuthenticatedActor, can_exercise_constitutional_authority, require_constitutional_authority,
}
use software_blueprint_hub.Constitution.Model.{Amendment}
use software_blueprint_hub.Constitution.Checks.{non_empty}
use software_blueprint_hub.Constitution.Transition.{
  TransitionAction, TransitionInput, transition, canonical_next,
}
use software_blueprint_hub.Constitution.Transition.Lifecycle.{Follows, transition-Follows}
use software_blueprint_hub.Constitution.Transition.Evidence.{
  IsBacked, transition-IsBacked, canonical_next-IsBacked, transition-IsSameAmendment,
}
use software_blueprint_hub.Constitution.Repository.{
  ConstitutionTables, ConstitutionStore, amendment_key, find_amendment,
}
use software_blueprint_hub.Constitution.Repository.Versions.{IsSwap, compare_and_set_sound}
use software_blueprint_hub.Constitution.Service.Requirements.{require_exact_amendment}
use software_blueprint_hub.Constitution.Service.Drafts.{authorized}

module _ (t : ConstitutionTables) where
  -- `c` was stored in `before` at the expected version; `next` follows it by the action, with the
  -- evidence of its stage if `c` had that of its own, at the next version; and `after` stores it.
  pub record IsCommit (before after : ConstitutionStore t) (expected : ℕ)
      (action : TransitionAction) (c next : Amendment) : Type 0 where
    pub found : find_amendment t (amendment_key c) before ≡ some c
    pub version : c.record_version ≡ expected
    pub follows : Follows action c.state next.state
    pub backed : IsBacked c → IsBacked next
    pub same_proposal : next.proposal ≡ c.proposal
    pub bumped : next.record_version ≡ expected + 1
    pub stored : find_amendment t (amendment_key next) after ≡ some next

  pub authorized_sound :
      (view : ℕ → ConstitutionStore t) (actor : Option AuthenticatedActor) (n : ℕ)
      → authorized t view actor n ≡ ok tt
      → can_exercise_constitutional_authority t.authority actor (view n).authority ≡ true
  unfolding require_constitutional_authority
  authorized_sound view actor n h = ground arith

  pub require_exact_amendment_sound :
      (id : String) (expected : ℕ) (s : ConstitutionStore t) (c : Amendment)
      → require_exact_amendment t id expected s ≡ ok c
      → (find_amendment t (amendment_key c) s ≡ some c) × (c.record_version ≡ expected)
  unfolding require_exact_amendment find_amendment
  require_exact_amendment_sound id expected s c h =
      let (trimmed, _, h₁) = >>=-eq-ok (non_empty id "amendmentId") _ h in
      let (d, at_id, h₂) = found-eq-ok (t.amendment.find_unique trimmed s.amendments) _ _ h₁ in
      let (same, h₃) = guard-eq-ok (nat_eq d.record_version expected) _ _ h₂ in
      let e : d ≡ c = ground arith in
      let key : amendment_key d ≡ trimmed = t.amendment.find-key trimmed s.amendments d at_id in
      rw (← e) (rw key at_id, (nat_eq_iff _ _).0 same)

  IsSwap-stored :
      (a : Amendment) (expected : ℕ) (test : Amendment → Bool) (s s' : ConstitutionStore t)
      → IsSwap t a expected test s s'
      → find_amendment t (amendment_key a) s' ≡ some a
  unfolding find_amendment
  IsSwap-stored a expected test s s' w =
      let (_, written) =
        compare_and_set_sound t test a expected s.amendments s'.amendments w.swapped in
      rw (written (amendment_key a)) (rw (==_refl (amendment_key a)) refl)

  stored-IsCommit :
      (id now : String) (expected : ℕ) (test : Amendment → Bool) (input : TransitionInput)
      (before write after : ConstitutionStore t) (c moved : Amendment)
      → require_exact_amendment t id expected before ≡ ok c
      → transition c input ≡ ok moved
      → IsSwap t (canonical_next c moved now) expected test write after
      → IsCommit before after expected input.action c (canonical_next c moved now)
  unfolding canonical_next
  stored-IsCommit id now expected test input before write after c moved read step w =
      let (here, version) = require_exact_amendment_sound id expected before c read in
      record {
        found = here;
        version = version;
        follows = (transition-Follows c moved input step).0;
        backed =
            λ b. canonical_next-IsBacked c moved now (transition-IsBacked c moved input b step);
        same_proposal = (transition-IsSameAmendment c moved input step).same_proposal;
        bumped = w.next;
        stored = IsSwap-stored (canonical_next c moved now) expected test write after w;
      }

  -- The steps that the handlers share after their own checks: what they read, moved, wrote as `s`
  -- and returned.
  pub transition-IsCommit :
      (id now : String) (expected : ℕ) (test : Amendment → Bool) (input : TransitionInput)
      (before write s after : ConstitutionStore t) (c moved next : Amendment)
      → require_exact_amendment t id expected before ≡ ok c
      → transition c input ≡ ok moved
      → IsSwap t (canonical_next c moved now) expected test write s
      → (canonical_next c moved now ≡ next)
      → s ≡ after
      → IsCommit before after expected input.action c next
  transition-IsCommit id now expected test input before write s after c moved next read step w n e =
      rw (← n, ← e) (stored-IsCommit id now expected test input before write s c moved read step w)
