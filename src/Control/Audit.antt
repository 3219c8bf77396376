-- ===== src/Control/Audit.antt =====
-- The audit log of src/traceguard/control/service.py: `_append_audit` against `verify_audit_chain`.
use trace_guard.Common.{
  ℕ, ◌+◌, String, ◌≡◌, ◌≢◌, refl, sym, ap, ◌∙◌, true, Option, none, some, List, [], ◌∷◌, ◌++◌, ◌==◌,
  eqb, length, length-append, get_last?-append, arith, eq_iff, eq_refl, same_option, Bool-cases,
  inl, inr, ==→eq, eqb→eq, and-eq-true,
}
use trace_guard.Control.Models.{AuditEvent}
use trace_guard.Control.Platform.{Platform}
use trace_guard.Control.Plane.{
  Plane, Entry, hash_of_last, clear_hash, unhashed, next_event, append_audit, verify_from, is_head,
  same_head, verify_audit_chain,
}

-- The hash that the event after a list must name.
abbrev last_or : Option String → List AuditEvent → Option String
last_or previous [] = previous
last_or previous (e ∷ events) = last_or (some e.event_hash) events

hash_of_last_lem :
    (e : AuditEvent) (events : List AuditEvent)
    → hash_of_last (e ∷ events) ≡ last_or (some e.event_hash) events
hash_of_last_lem e [] = refl
hash_of_last_lem e (f ∷ events) = ground (arith, hash_of_last_lem f events)

hash_of_last-eq : (events : List AuditEvent) → hash_of_last events ≡ last_or none events
hash_of_last-eq [] = refl
hash_of_last-eq (e ∷ events) = hash_of_last_lem e events

same_option_refl : (o : Option String) → same_option o o ≡ true
same_option_refl none = refl
same_option_refl (some s) = eq_refl s

same_option→eq : (a b : Option String) → same_option a b ≡ true → a ≡ b
same_option→eq none none h = refl
same_option→eq (some s) (some t) h = ap some (==→eq s t h)
same_option→eq none (some t) h = cc
same_option→eq (some s) none h = cc

module _ (p : Platform) where
  -- What one turn of the loop checks.
  record IsLink (index : ℕ) (previous : Option String) (e : AuditEvent) : Type 0 where
    names : e.previous_hash ≡ previous
    numbered : e.sequence ≡ index
    hashed : e.event_hash ≡ p.hash_event (clear_hash e)

  verify_from-cons :
      (index : ℕ) (previous : Option String) (e : AuditEvent) (events : List AuditEvent)
      → verify_from p index previous (e ∷ events) ≡ true
      → IsLink index previous e × (verify_from p (index + 1) (some e.event_hash) events ≡ true)
  unfolding verify_from
  verify_from-cons index previous e events h =
      let a : same_option e.previous_hash previous ≡ true = ground arith in
      let b : eqb e.sequence index ≡ true = ground arith in
      let c : (e.event_hash == p.hash_event (clear_hash e)) ≡ true = ground arith in
      (
        record {
          names = same_option→eq e.previous_hash previous a;
          numbered = eqb→eq e.sequence index b;
          hashed = ==→eq e.event_hash (p.hash_event (clear_hash e)) c;
        },
        ground arith,
      )

  cons-verify_from :
      (index : ℕ) (previous : Option String) (e : AuditEvent) (events : List AuditEvent)
      → IsLink index previous e
      → verify_from p (index + 1) (some e.event_hash) events ≡ true
      → verify_from p index previous (e ∷ events) ≡ true
  unfolding verify_from
  cons-verify_from index previous e events l h =
      let a : same_option e.previous_hash previous ≡ true =
        rw l.names (same_option_refl previous) in
      let b : (e.event_hash == p.hash_event (clear_hash e)) ≡ true =
        (eq_iff e.event_hash (p.hash_event (clear_hash e))).1 l.hashed in
      ground (arith, l.numbered)

  verify_from-append :
      (index : ℕ) (previous : Option String) (events : List AuditEvent) (e : AuditEvent)
      → verify_from p index previous events ≡ true
      → IsLink (index + length events) (last_or previous events) e
      → verify_from p index previous (events ++ e ∷ []) ≡ true
  unfolding verify_from
  verify_from-append index previous [] e h l =
      cons-verify_from index previous e []
        (record { names = l.names; numbered = omega arith; hashed = l.hashed }) refl
  verify_from-append index previous (f ∷ events) e h l =
      let (link, rest) = verify_from-cons index previous f events h in
      cons-verify_from index previous f (events ++ e ∷ []) link (
        verify_from-append (index + 1) (some f.event_hash) events e rest
          (record { names = l.names; numbered = omega arith; hashed = l.hashed }))

  -- Two logs of one length that verify and end in one hash are one log, unless two events at one
  -- place of them have a common hash.
  abbrev pub NoCollision : List AuditEvent → List AuditEvent → Type 0
  NoCollision [] events = Unit
  NoCollision (e ∷ events) [] = Unit
  NoCollision (e ∷ events) (f ∷ others) =
      (p.hash_event (clear_hash e) ≡ p.hash_event (clear_hash f) → clear_hash e ≡ clear_hash f)
      × NoCollision events others

  record-eq : (e f : AuditEvent) → clear_hash e ≡ clear_hash f → e.event_hash ≡ f.event_hash → e ≡ f
  record-eq e f c h = ground arith

  logs_agree :
      (index : ℕ) (previous previous' : Option String) (events others : List AuditEvent)
      → verify_from p index previous events ≡ true
      → verify_from p index previous' others ≡ true
      → length events ≡ length others
      → last_or previous events ≡ last_or previous' others
      → NoCollision events others
      → (events ≡ others) × (previous ≡ previous')
  logs_agree index previous previous' [] [] v w n l c = (refl, l)
  logs_agree index previous previous' [] (f ∷ others) v w n l c = absurd (omega arith)
  logs_agree index previous previous' (e ∷ events) [] v w n l c = absurd (omega arith)
  logs_agree index previous previous' (e ∷ events) (f ∷ others) v w n l c =
      let (a, v') = verify_from-cons index previous e events v in
      let (b, w') = verify_from-cons index previous' f others w in
      let (rest, h) =
        logs_agree (index + 1) (some e.event_hash) (some f.event_hash) events others v' w'
          (omega arith) l c.1 in
      let hash : e.event_hash ≡ f.event_hash = cc h in
      let same : clear_hash e ≡ clear_hash f = c.0 (sym a.hashed ∙ hash ∙ b.hashed) in
      (
        cc (record-eq e f same hash, rest),
        sym a.names ∙ ap (λ (x : AuditEvent). x.previous_hash) same ∙ b.names,
      )

  next_event-IsLink :
      (now : ℕ) (tenant : String) (entry : Entry) (events : List AuditEvent)
      → IsLink (1 + length events) (last_or none events) (next_event p now tenant entry events)
  unfolding next_event unhashed
  next_event-IsLink now tenant entry events = record {
    names = hash_of_last-eq events;
    numbered = omega arith;
    hashed = refl;
  }

  is_head-append :
      (events : List AuditEvent) (e : AuditEvent)
      → is_head (some (length events + 1, e.event_hash)) (events ++ e ∷ []) ≡ true
  is_head-append [] e = rw (eq_refl e.event_hash)
  is_head-append (f ∷ events) e =
      ground (arith, get_last?-append events e, length-append events (e ∷ []), eq_refl e.event_hash)

  pub verify-append_audit :
      (now : ℕ) (tenant other : String) (entry : Entry) (s : Plane)
      → verify_audit_chain p s other ≡ true
      → verify_audit_chain p (append_audit p now tenant entry s) other ≡ true
  unfolding verify_audit_chain append_audit
  verify-append_audit now tenant other entry s h = elim (Bool-cases (tenant == other)) [
    | inl same ↦ rw same (
        let t : tenant ≡ other = ==→eq tenant other same in
        let event = next_event p now tenant entry (s.audits tenant) in
        let chain : verify_from p 1 none (s.audits tenant) ≡ true =
          (and-eq-true _ _ (rw (← t) at h)).0 in
        rw (
          verify_from-append 1 none (s.audits tenant) event chain
              (next_event-IsLink now tenant entry (s.audits tenant)),
          is_head-append (s.audits tenant) event,
        ))
    | inr differs ↦ rw differs h
  ]

  same_head-parts :
      (head : Option (ℕ × String)) (count count' : ℕ) (hash hash' : Option String)
      → same_head head count hash ≡ true
      → same_head head count' hash' ≡ true
      → (count ≡ count') × (hash ≡ hash')
  same_head-parts none count count' hash hash' h k = cc
  same_head-parts (some (n, t)) count count' hash hash' h k =
      let (a, b) = and-eq-true (eqb n count) (same_option (some t) hash) h in
      let (c, d) = and-eq-true (eqb n count') (same_option (some t) hash') k in
      (
        sym (eqb→eq n count a) ∙ eqb→eq n count' c,
        sym (same_option→eq (some t) hash b) ∙ same_option→eq (some t) hash' d,
      )

  same_head-none : (count : ℕ) (hash : Option String) → same_head none count hash ≢ true
  same_head-none count hash h = cc

  is_head-parts :
      (head : Option (ℕ × String)) (events others : List AuditEvent)
      → is_head head events ≡ true
      → is_head head others ≡ true
      → (length events ≡ length others) × (last_or none events ≡ last_or none others)
  is_head-parts head [] [] h k = (refl, refl)
  is_head-parts none [] (f ∷ others) h k = cc
  is_head-parts (some _) [] (f ∷ others) h k = cc
  is_head-parts none (e ∷ events) [] h k = cc
  is_head-parts (some _) (e ∷ events) [] h k = cc
  is_head-parts head (e ∷ events) (f ∷ others) h k =
      let (n, t) =
        same_head-parts head (length (e ∷ events)) (length (f ∷ others)) (hash_of_last (e ∷ events))
          (hash_of_last (f ∷ others)) h k in
      (n, sym (hash_of_last_lem e events) ∙ t ∙ hash_of_last_lem f others)

  -- Two logs of a tenant that verify against one recorded head are the same log, event by event,
  -- unless two events at one place of them have the same hash.
  pub head_determines_log :
      (s s' : Plane) (tenant : String)
      → verify_audit_chain p s tenant ≡ true
      → verify_audit_chain p s' tenant ≡ true
      → s.audit_heads tenant ≡ s'.audit_heads tenant
      → NoCollision (s.audits tenant) (s'.audits tenant)
      → s.audits tenant ≡ s'.audits tenant
  unfolding verify_audit_chain
  head_determines_log s s' tenant v w e c =
      let (a, h) = and-eq-true _ _ v in
      let (b, k) = and-eq-true _ _ w in
      let (n, t) =
        is_head-parts (s.audit_heads tenant) (s.audits tenant) (s'.audits tenant) h (rw e k) in
      (logs_agree 1 none none (s.audits tenant) (s'.audits tenant) a b n t c).0
