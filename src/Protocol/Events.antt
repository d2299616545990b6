-- ===== src/Protocol/Events.antt =====
-- packages/protocol/src/index.ts: the demo events, as `parseDemoEvent` accepts and `createDemoEvent`
-- makes them. `Date.parse` is a parameter.
use midnight_private_negotia.Common.{
  ◌≡◌, refl, subst, Bool, true, false, not, ◌&&◌, ◌||◌, Option, none, some, arith, Text,
  is_product_code, Result, ok, guard, ◌>>◌, ok-injective,
}
use midnight_private_negotia.Agent.Types.{PartyRole}
use midnight_private_negotia.Protocol.Types.{
  Role, party, observer, DemoState, room_joined, agreed_state, EventAudience, participants, public,
  DemoEvent, is_identifier, is_krw_amount, is_message_code,
}

pub data EventError : Type 0 where
  invalid_demo_event invalid_product_code misplaced_product_code invalid_correlation_id : EventError
  invalid_replace_key misplaced_agreed_amount observer_not_public : EventError

abbrev pub is_room_joined : DemoState → Bool
is_room_joined room_joined = true
is_room_joined _ = false

abbrev pub is_agreed : DemoState → Bool
is_agreed agreed_state = true
is_agreed _ = false

abbrev pub is_participants : EventAudience → Bool
is_participants participants = true
is_participants _ = false

abbrev pub is_public : EventAudience → Bool
is_public public = true
is_public _ = false

abbrev pub is_observer : Role → Bool
is_observer observer = true
is_observer (party p) = false

abbrev pub all_given : (Text → Bool) → Option Text → Bool
all_given test none = true
all_given test (some s) = test s

abbrev pub is_given : Option Text → Bool
is_given none = false
is_given (some s) = true

-- The tests of `parseDemoEvent` in their order, with what each of them throws.
abbrev pub guarded :
    Bool → Bool → Bool → Bool → Bool → Bool → Bool → DemoEvent → Result EventError DemoEvent
guarded fields product joined correlation replace amount observed e = do
  guard fields invalid_demo_event
  guard product invalid_product_code
  guard joined misplaced_product_code
  guard correlation invalid_correlation_id
  guard replace invalid_replace_key
  guard amount misplaced_agreed_amount
  guard observed observer_not_public
  ok e

-- `parseDemoEvent` on an event whose fields have their types
abbrev pub check_event : (Text → Bool) → DemoEvent → Result EventError DemoEvent
check_event is_date e =
    guarded
      (is_identifier e.event_id
        && is_date e.occurred_at
        && is_identifier e.session_id
        && is_message_code e.message_code)
      (all_given is_product_code e.product_code)
      (not (is_given e.product_code) || is_room_joined e.state)
      (all_given is_identifier e.correlation_id) (all_given is_identifier e.replace_key)
      (not (is_given e.agreed_amount)
        || (all_given is_krw_amount e.agreed_amount
            && is_agreed e.state
            && is_participants e.audience
            && not (is_observer e.panel)))
      (not (is_observer e.panel) || is_public e.audience) e

-- `createDemoEvent`, with the identifier and the time that it draws.
unfoldable pub create_demo_event : (Text → Bool) → DemoEvent → Result EventError DemoEvent
create_demo_event is_date e = check_event is_date e

-- What the fields of an event that may be missing allow it to show: an agreed amount stands only in
-- an agreement that is shown to the two participants, the observer's events are public, and a product
-- is named only when a room is joined.
abbrev pub AmountIsPrivate : Option Text → Role → DemoState → EventAudience → Type 0
AmountIsPrivate none panel state audience = Unit
AmountIsPrivate (some amount) panel state audience =
    (state ≡ agreed_state) × (audience ≡ participants) × ((role : PartyRole) × (panel ≡ party role))

abbrev pub PanelIsPublic : Role → EventAudience → Type 0
PanelIsPublic observer audience = audience ≡ public
PanelIsPublic (party role) audience = Unit

abbrev pub ProductIsJoined : Option Text → DemoState → Type 0
ProductIsJoined none state = Unit
ProductIsJoined (some product) state = state ≡ room_joined

abbrev pub IsPrivate : DemoEvent → Type 0
IsPrivate e =
    AmountIsPrivate e.agreed_amount e.panel e.state e.audience
    × PanelIsPublic e.panel e.audience
    × ProductIsJoined e.product_code e.state

is_agreed-eq : (state : DemoState) → is_agreed state ≡ true → state ≡ agreed_state
is_agreed-eq state h = ground arith

is_room_joined-eq : (state : DemoState) → is_room_joined state ≡ true → state ≡ room_joined
is_room_joined-eq state h = ground arith

is_participants-eq :
    (audience : EventAudience) → is_participants audience ≡ true → audience ≡ participants
is_participants-eq audience h = ground arith

is_public-eq : (audience : EventAudience) → is_public audience ≡ true → audience ≡ public
is_public-eq audience h = ground arith

party_of :
    (panel : Role) → not (is_observer panel) ≡ true → (role : PartyRole) × (panel ≡ party role)
party_of observer h = cc
party_of (party role) h = (role, refl)

amount-AmountIsPrivate :
    (amount : Option Text) (panel : Role) (state : DemoState) (audience : EventAudience)
    → (not (is_given amount)
        || (all_given is_krw_amount amount
            && is_agreed state
            && is_participants audience
            && not (is_observer panel)))
      ≡ true
    → AmountIsPrivate amount panel state audience
amount-AmountIsPrivate none panel state audience h = tt
amount-AmountIsPrivate (some amount) panel state audience h = (
  is_agreed-eq state (ground arith),
  is_participants-eq audience (ground arith),
  party_of panel (ground arith),
)

observed-PanelIsPublic :
    (panel : Role) (audience : EventAudience)
    → (not (is_observer panel) || is_public audience) ≡ true
    → PanelIsPublic panel audience
observed-PanelIsPublic observer audience h = is_public-eq audience h
observed-PanelIsPublic (party role) audience h = tt

joined-ProductIsJoined :
    (product : Option Text) (state : DemoState)
    → (not (is_given product) || is_room_joined state) ≡ true
    → ProductIsJoined product state
joined-ProductIsJoined none state h = tt
joined-ProductIsJoined (some product) state h = is_room_joined-eq state h

guarded-ok :
    (a b joined c d amount observed : Bool) (e f : DemoEvent)
    → guarded a b joined c d amount observed e ≡ ok f
    → (e ≡ f) × (joined ≡ true) × (amount ≡ true) × (observed ≡ true)
guarded-ok false b joined c d amount observed e f h = cc
guarded-ok true false joined c d amount observed e f h = cc
guarded-ok true true false c d amount observed e f h = cc
guarded-ok true true true false d amount observed e f h = cc
guarded-ok true true true true false amount observed e f h = cc
guarded-ok true true true true true false observed e f h = cc
guarded-ok true true true true true true false e f h = cc
guarded-ok true true true true true true true e f h = (ok-injective h, refl, refl, refl)

-- An event that `parseDemoEvent` accepts comes back unchanged. If it has an agreed amount, its state
-- is the agreement, its audience the participants and its panel a party's; if its panel is the
-- observer's, its audience is the public; if it names a product, its state is the joining of a room.
pub check_event-IsPrivate :
    (is_date : Text → Bool) (e f : DemoEvent) → check_event is_date e ≡ ok f → (e ≡ f) × IsPrivate f
check_event-IsPrivate is_date e f h =
    let (same, product, amount, observed) = guarded-ok _ _ _ _ _ _ _ e f h in
    (
      same,
      subst IsPrivate same (
        amount-AmountIsPrivate e.agreed_amount e.panel e.state e.audience amount,
        observed-PanelIsPublic e.panel e.audience observed,
        joined-ProductIsJoined e.product_code e.state product,
      ),
    )
