-- ===== src/Controller/Naming.antt =====
-- packages/demo-controller/src/session-id.ts: the session that a room of the demo has, and
-- packages/demo-controller/src/display-policy.ts: the events that the browser shows.
use midnight_private_negotia.Common.{
  ◌≡◌, refl, sym, ap, ◌∙◌, Bool, true, false, not, ◌&&◌, ◌||◌, [], ◌∷◌, ◌++◌, arith, length, Text,
  codes, text_eq, is_product_code, Result, ok, guard, ◌>>◌, ok-injective,
}
use midnight_private_negotia.Protocol.Types.{DemoEvent, is_identifier}

pub data NamingError : Type 0 where
  invalid_room_identity identity_too_long : NamingError

abbrev pub named : Bool → Text → Result NamingError Text
named valid session = do
  guard valid invalid_room_identity
  guard (is_identifier session) identity_too_long
  ok session

-- `createRoomSessionId`
unfoldable pub create_room_session_id : Text → Text → Result NamingError Text
create_room_session_id product instance_id =
    named (is_product_code product && is_identifier instance_id)
      (codes "room-" ++ (product ++ (codes "-" ++ instance_id)))

-- `isBrowserDisplayEvent`
abbrev pub is_browser_display_event : DemoEvent → Bool
is_browser_display_event e =
    not (
      text_eq e.message_code (codes "DEAL_CREATED") || text_eq e.message_code (codes "DEAL_JOINED"))

checked_named :
    (valid fits : Bool) (session s : Text)
    → (guard valid invalid_room_identity >> (guard fits identity_too_long >> ok session)) ≡ ok s
    → (valid ≡ true) × (fits ≡ true) × (session ≡ s)
checked_named true true session s h = (refl, refl, ok-injective h)
checked_named true false session s h = cc
checked_named false fits session s h = cc

-- Texts of one length in front of others
front_cancel : (xs ys a b : Text) → length xs ≡ length ys → xs ++ a ≡ ys ++ b → (xs ≡ ys) × (a ≡ b)
front_cancel [] [] a b same h = (refl, h)
front_cancel [] (y ∷ ys) a b same h = absurd (omega (arith, same))
front_cancel (x ∷ xs) [] a b same h = absurd (omega (arith, same))
front_cancel (x ∷ xs) (y ∷ ys) a b same h =
    let heads : x ≡ y = cc in
    let tails : xs ++ a ≡ ys ++ b = cc in
    let (front, back) = front_cancel xs ys a b (omega (arith, same)) tails in (cc, back)

-- A session identifier that `createRoomSessionId` makes is a valid identifier, and determines the
-- product and the demo instance that it was made for: two different rooms never share a session.
pub create_room_session_id-injective :
    (product product' instance_id instance_id' session : Text)
    → create_room_session_id product instance_id ≡ ok session
    → create_room_session_id product' instance_id' ≡ ok session
    → (is_identifier session ≡ true) × (product ≡ product') × (instance_id ≡ instance_id')
unfolding create_room_session_id
create_room_session_id-injective product product' instance_id instance_id' session made made' =
    let (valid, fits, same) = checked_named _ _ _ session made in
    let (valid', _, same') = checked_named _ _ _ session made' in
    let rest : product ++ (codes "-" ++ instance_id) ≡ product' ++ (codes "-" ++ instance_id') =
      (front_cancel (codes "room-") (codes "room-") _ _ refl (same ∙ sym same')).1 in
    let four : length product ≡ length product' = ground (arith, valid, valid') in
    let (products, tails) =
      front_cancel product product' (codes "-" ++ instance_id) (codes "-" ++ instance_id') four
        rest in
    (
      ap is_identifier (sym same) ∙ fits,
      products,
      (front_cancel (codes "-") (codes "-") _ _ refl tails).1,
    )
