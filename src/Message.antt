-- ===== src/Message.antt =====
-- The messages of spec/v1 and the pubsub that carries them: what was published, and who subscribes.
pub mod Laws
use mathlib.Core.Option
use baetyl.Base.{
  String, Bool, Option, none, some, List, [], ◌∷◌, ◌++◌, ◌==◌, string_eq, if◌then◌else◌,
}
use baetyl.Base.Dict
use baetyl.Base.Dict.{Dict}

-- A value, or the text of an error.
pub data Try {ℓ} (A : Type ℓ) : Type ℓ where
  done : A → Try A
  failed : String → Try A

pub data MessageKind : Type 0 where
  report cmd data_message node_props devices device_delta device_event device_property_get :
      MessageKind
  other_kind : String → MessageKind

pub record Message (C : Type 0) : Type 0 where
  pub kind : MessageKind
  pub metadata : Dict String String
  pub content : C

-- `m.Metadata[k]`, the empty text on a missing key
abbrev pub meta : {C : Type 0} → String → Message C → String
meta k m = elim (Dict.lookup k m.metadata) [ none ↦ "" | some v ↦ v ]

pub record Bus (C : Type 0) : Type 0 where
  pub published : List (String × Message C)
  pub subscribed : List String

-- What the pubsub answers: the error of a call, if it has one.
pub record BusLib (C : Type 0) : Type 0 where
  pub publish_error : String → Message C → Option String
  pub subscribe_error : String → Option String
  pub unsubscribe_error : String → Option String

abbrev pub topic_upside : String
topic_upside = "upside"

abbrev pub topic_downside : String
topic_downside = "downside"

abbrev pub topic_dm : String
topic_dm = "dm"

abbrev pub topic_event : String
topic_event = "event"

-- One subscription of a topic ends.
unfoldable pub remove_one : String → List String → List String
remove_one t [] = []
remove_one t (s ∷ rest) = if t == s then rest else s ∷ remove_one t rest

module _ {C : Type 0} (lib : BusLib C) where
  unfoldable pub publish : String → Message C → Bus C → Option String × Bus C
  publish topic m bus = elim (lib.publish_error topic m) [
    | some e ↦ (some e, bus)
    | none ↦ (none, record bus { published = bus.published ++ ((topic, m) ∷ []) })
  ]

  unfoldable pub subscribe : String → Bus C → Option String × Bus C
  subscribe topic bus = elim (lib.subscribe_error topic) [
    | some e ↦ (some e, bus)
    | none ↦ (none, record bus { subscribed = topic ∷ bus.subscribed })
  ]

  unfoldable pub unsubscribe : String → Bus C → Option String × Bus C
  unfolding remove_one
  unsubscribe topic bus = elim (lib.unsubscribe_error topic) [
    | some e ↦ (some e, bus)
    | none ↦ (none, record bus { subscribed = remove_one topic bus.subscribed })
  ]
