-- ===== src/Policy/Decision/Answered.antt =====
-- What a response to a decision card means, and that a timely one is accepted.
use loop_skill.Protocol.Value.{Value}
use loop_skill.Protocol.Envelope.{alike, is_before, Moment, Runtime}
use loop_skill.Prelude.{
  ap, eq_refl, ltb, subset, Bool, Bool-cases, List, Option, String, [], all, arith, elem, eq_iff,
  false, inl, inr, refl, some, subst, sym, true, ◌&&◌, ◌==◌, ◌∙◌, ◌∷◌, ◌≡◌, ◌≤◌,
}
use loop_skill.Protocol.Partial.{settled, bind_some, unless, unless-some, ◌>>=◌}
use loop_skill.Policy.Decision.{
  DecisionCard, DecisionResponse, apply_decision_response, build_decision_card, context_digest_of,
  decision_options, invalid_card, mismatched,
}

first_true : (a b : Bool) → (a && b) ≡ true → a ≡ true
first_true true b h = refl
first_true false b h = cc

second_true : (a b : Bool) → (a && b) ≡ true → b ≡ true
second_true true b h = h
second_true false b h = cc

elem-all :
    (x : String) (xs : List String) (test : String → Bool)
    → all test xs ≡ true
    → elem x xs ≡ true
    → test x ≡ true
elem-all x [] test h m = cc
elem-all x (y ∷ xs) test h m =
    let e = elem-all x xs test in
    elim (Bool-cases (x == y)) [
      | inl same ↦ subst (λ z. test z ≡ true) (sym ((eq_iff x y).0 same)) (first_true (test y) _ h)
      | inr other ↦ e (second_true (test y) _ h) (rw other at m)
    ]

-- two `datetime` that can be compared, the first not after the second
abbrev pub NotAfter : Moment → Moment → Type 0
NotAfter a b = (a.aware ≡ b.aware) × (a.microseconds ≤ b.microseconds)

alike-eq : (a b : Bool) → alike a b ≡ true → b ≡ a
alike-eq true true h = refl
alike-eq true false h = cc
alike-eq false true h = cc
alike-eq false false h = refl

alike_refl : (a : Bool) → alike a a ≡ true
alike_refl true = refl
alike_refl false = refl

not_before-NotAfter :
    (a b : Moment) (t : Bool) → settled (is_before a b) ≡ some t → t ≡ false → NotAfter b a
unfolding is_before
not_before-NotAfter a b t h e = (ground (arith, alike-eq a.aware b.aware), ground arith)

not_before_settled :
    (a b : Moment)
    → b.aware ≡ a.aware
    → b.microseconds ≤ a.microseconds
    → settled (is_before a b) ≡ some false
unfolding is_before
not_before_settled a b zone order =
    let late : ltb a.microseconds b.microseconds ≡ false = ground arith in
    rw (zone, alike_refl a.aware, late) refl

module _ (rt : Runtime) where
  -- what an accepted response to a built card shows
  pub record IsAnswer (options : List String) (context current : Value)
      (responded_at now expires_at option : String) : Type 0 where
    pub declared : elem option decision_options ≡ true
    pub offered : elem option options ≡ true
    pub unchanged : context_digest_of rt current ≡ context_digest_of rt context
    pub in_time :
        (responded : Moment) × (at : Moment) × (expiry : Moment) × (rt.fromisoformat responded_at
          ≡ some responded)
        × (rt.fromisoformat now ≡ some at)
        × (rt.fromisoformat expires_at ≡ some expiry)
        × NotAfter responded at
        × NotAfter at expiry

  -- the card has what it was built from
  built :
      (card_ref goal_ref : String) (artifact_ref : Option String) (options : List String)
      (context : Value) (expires_at : String) (card : DecisionCard)
      → build_decision_card rt card_ref goal_ref artifact_ref options context expires_at ≡ some card
      → (invalid_card card_ref goal_ref options ≡ false)
        × (context_digest_of rt context ≡ some card.context_digest)
        × (card.card_ref ≡ card_ref)
        × (card.options ≡ options)
        × (card.expires_at ≡ expires_at)
  unfolding build_decision_card
  built card_ref goal_ref artifact_ref options context expires_at card h =
      let (valid, h1) = unless-some _ _ h in
      let (expiry, p2, h2) = bind_some (rt.fromisoformat expires_at) _ h1 in
      let (digest, p3, h3) = bind_some (context_digest_of rt context) _ h2 in
      let (card_digest, p4, h4) = bind_some _ _ h3 in
      (valid, ground (arith, p3, h4), ground (arith, h4), ground (arith, h4), ground (arith, h4))

  matches :
      (card : DecisionCard) (response : DecisionResponse) (digest : String)
      → mismatched rt card response digest ≡ false
      → (digest ≡ card.context_digest) × (elem response.selected_option card.options ≡ true)
  unfolding mismatched
  matches card response digest h =
      let found = Bool-cases (elem response.selected_option card.options) in
      (
        ground (arith, eq_iff digest card.context_digest),
        elim found [ inl yes_there ↦ yes_there | inr missing ↦ absurd (ground (arith, missing)) ],
      )

  accepted :
      (card : DecisionCard) (response : DecisionResponse) (current : Value) (now option : String)
      → apply_decision_response rt card response current now ≡ some option
      → (option ≡ response.selected_option)
        × (elem option card.options ≡ true)
        × (context_digest_of rt current ≡ some card.context_digest)
        × ((responded : Moment) × (at : Moment) × (expiry : Moment) × (rt.fromisoformat
                response.responded_at
              ≡ some responded)
            × (rt.fromisoformat now ≡ some at)
            × (rt.fromisoformat card.expires_at ≡ some expiry)
            × NotAfter responded at
            × NotAfter at expiry)
  unfolding apply_decision_response
  accepted card response current now option h =
      let (digest, p1, h1) = bind_some (context_digest_of rt current) _ h in
      let (agree, h2) = unless-some _ _ h1 in
      let (responded, p3, h3) = bind_some (rt.fromisoformat response.responded_at) _ h2 in
      let (at, p4, h4) = bind_some (rt.fromisoformat now) _ h3 in
      let (future, p5, h5) = bind_some (settled (is_before at responded)) _ h4 in
      let (not_future, h6) = unless-some future _ h5 in
      let (expiry, p7, h7) = bind_some (rt.fromisoformat card.expires_at) _ h6 in
      let (expired, p8, h8) = bind_some (settled (is_before expiry at)) _ h7 in
      let (not_expired, h9) = unless-some expired _ h8 in
      let chosen : option ≡ response.selected_option = ground (arith, h9) in
      (
        chosen,
        subst (λ o. elem o card.options ≡ true) (sym chosen) (matches card response digest agree).1,
        p1 ∙ ap some (matches card response digest agree).0,
        (
          responded,
          at,
          expiry,
          p3,
          p4,
          p7,
          not_before-NotAfter at responded future p5 not_future,
          not_before-NotAfter expiry at expired p8 not_expired,
        ),
      )

  declared_options :
      (card_ref goal_ref : String) (options : List String)
      → invalid_card card_ref goal_ref options ≡ false
      → subset options decision_options ≡ true
  unfolding invalid_card
  declared_options card_ref goal_ref options h =
      elim (Bool-cases (subset options decision_options)) [
        | inl all_there ↦ all_there
        | inr missing ↦ absurd (ground (arith, missing))
      ]

  -- A response to a card that `build_decision_card` made is accepted only with an option of the card,
  -- all of them being CONTINUE_REPAIR, WAIT or STOP, in the context of the card (their digests are
  -- equal), given not after now, and not after the card expired.
  pub apply_decision_response-IsAnswer :
      (card_ref goal_ref : String) (artifact_ref : Option String) (options : List String)
      (context current : Value) (expires_at now : String) (card : DecisionCard)
      (response : DecisionResponse) (option : String)
      → build_decision_card rt card_ref goal_ref artifact_ref options context expires_at ≡ some card
      → apply_decision_response rt card response current now ≡ some option
      → IsAnswer options context current response.responded_at now expires_at option
  unfolding invalid_card
  apply_decision_response-IsAnswer card_ref goal_ref artifact_ref options context current expires_at
        now card response option made answered =
      let (valid, digest, ref, offered, expiry) =
        built card_ref goal_ref artifact_ref options context expires_at card made in
      let (chosen, there, current_digest, (responded, at, limit, p, q, r, before, timely)) =
        accepted card response current now option answered in
      let member : elem option options ≡ true = subst (λ os. elem option os ≡ true) offered there in
      record {
        declared =
            elem-all option options (λ o. elem o decision_options)
              (declared_options card_ref goal_ref options valid) member;
        offered = member;
        unchanged = current_digest ∙ sym digest;
        in_time =
            (responded, at, limit, p, q, ap rt.fromisoformat (sym expiry) ∙ r, before, timely);
      }

  -- A card can be answered: as long as the context is the one it was built for, a response with the
  -- card's digests, one of its options and a time that is not after now, with now not after the
  -- expiry and either all three times or none of them with a time zone, is accepted and gives its
  -- option.
  pub apply_decision_response-build_decision_card :
      (card_ref goal_ref : String) (artifact_ref : Option String) (options : List String)
      (context : Value) (expires_at now responded_at option : String) (card : DecisionCard)
      (responded at expiry : Moment)
      → build_decision_card rt card_ref goal_ref artifact_ref options context expires_at ≡ some card
      → elem option options ≡ true
      → rt.fromisoformat responded_at ≡ some responded
      → rt.fromisoformat now ≡ some at
      → rt.fromisoformat expires_at ≡ some expiry
      → responded.aware ≡ at.aware
      → at.aware ≡ expiry.aware
      → responded.microseconds ≤ at.microseconds
      → at.microseconds ≤ expiry.microseconds
      → apply_decision_response rt card
          (record {
            card_ref = card_ref;
            selected_option = option;
            context_digest = card.context_digest;
            card_digest = card.card_digest;
            responded_at = responded_at;
          })
          context
          now
        ≡ some option
  unfolding apply_decision_response ◌>>=◌ unless mismatched
  apply_decision_response-build_decision_card card_ref goal_ref artifact_ref options context
        expires_at now responded_at option card responded at expiry made member p q r same_zone
        expiry_zone before timely =
      let (valid, digest, ref, offered, expires) =
        built card_ref goal_ref artifact_ref options context expires_at card made in
      rw
        (
          digest,
          ref,
          offered,
          expires,
          p,
          q,
          r,
          member,
          not_before_settled at responded same_zone before,
          not_before_settled expiry at expiry_zone timely,
          eq_refl card_ref,
          eq_refl card.card_digest,
          eq_refl card.context_digest,
        )
        refl
