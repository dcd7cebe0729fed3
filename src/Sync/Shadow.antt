-- ===== src/Sync/Shadow.antt =====
-- sync/sync.go: the messages of the cloud, and the report that is sent to it.
pub mod Laws
use mathlib.Core.Option
use baetyl.Base.{
  String, Bool, true, false, not, ◌&&◌, Option, none, some, List, [], ◌∷◌, ◌++◌, ◌==◌, string_eq,
  if◌then◌else◌,
}
use baetyl.Base.Dict
use baetyl.Base.Dict.{Dict}
use baetyl.Message.{
  Try, done, failed, MessageKind, report, cmd, data_message, node_props, devices, device_delta,
  device_event, device_property_get, Message, Bus, BusLib, publish, topic_downside, topic_dm,
  topic_event,
}
use baetyl.Node.Defs
use baetyl.Node.Defs.{Error, Result, ok, err, Shadow, Doc}

pub data Failure : Type 0 where
  node_failed : Error → Failure
  bad_content bus_failed link_failed : String → Failure

-- What the code calls: the node's library, the contents of messages, the bus and the link, with the
-- configuration and the service's name.
pub record Lib : Type 1 where
  pub node : Defs.Lib
  pub Content : Type 0
  pub as_desire : Content → Try (Doc node.Value)
  pub of_report : Option (Doc node.Value) → Content
  pub of_props : Doc node.Value → Content
  pub of_devices : List (node.Value) → Content
  pub as_list : node.Value → Option (List (node.Value))
  pub key_devices : String
  pub key_node_props : String
  pub bus : BusLib Content
  pub async : Bool
  pub send_error : Message Content → Option String
  pub request : Message Content → Try (Message Content)
  pub notify : Bool
  pub is_core : Bool
  pub service_name : String

module _ (lib : Lib) where
  open lib use {Content, node}

  -- The shadow, the bus, and what was sent on the link.
  pub record State : Type 0 where
    pub cell : Option (node.Bytes)
    pub bus : Bus Content
    pub sent : List (Message Content)

  abbrev pub Outcome : Type 0
  Outcome = Option Failure × State

  -- `return s.pb.Publish(topic, msg)`
  unfoldable pub post : String → Message Content → State → Outcome
  post topic m s =
      let (e, bus') = publish lib.bus topic m s.bus in
      (elim e [ none ↦ none | some why ↦ some (bus_failed why) ], record s { bus = bus' })

  -- The properties of the node in a delta, unless there are none.
  unfoldable pub props_in : Doc (node.Value) → Option (Doc (node.Value))
  props_in delta = elim (Dict.lookup lib.key_node_props delta) [
    | none ↦ none
    | some v ↦ elim (node.as_map v) [ none ↦ none | some [] ↦ none | some (p ∷ ps) ↦ some (p ∷ ps) ]
  ]

  unfoldable pub devices_in : Doc (node.Value) → Option (List (node.Value))
  devices_in delta = elim (Dict.lookup lib.key_devices delta) [
    | none ↦ none
    | some v ↦ elim (lib.as_list v) [ none ↦ none | some [] ↦ none | some (d ∷ ds) ↦ some (d ∷ ds) ]
  ]

  abbrev pub props_message : Doc (node.Value) → Message Content
  props_message props = record { kind = node_props; metadata = []; content = lib.of_props props }

  abbrev pub devices_message : List (node.Value) → Message Content
  devices_message ds = record { kind = devices; metadata = []; content = lib.of_devices ds }

  unfoldable pub send_event : Doc (node.Value) → State → Outcome
  unfolding props_in post
  send_event delta s =
      if lib.notify
      then elim (props_in delta) [
        | none ↦ (none, s)
        | some props ↦ post topic_event (props_message props) s
      ]
      else (none, s)

  unfoldable pub sync_devices : Doc (node.Value) → State → Outcome
  unfolding devices_in post
  sync_devices delta s = elim (devices_in delta) [
    | none ↦ (none, s)
    | some ds ↦ post topic_dm (devices_message ds) s
  ]

  abbrev pub and_then : Outcome → (State → Outcome) → Outcome
  and_then (some e, s) next = (some e, s)
  and_then (none, s) next = next s

  -- `s.nod.Desire(desire, true)`; only baetyl-core does more with the difference.
  unfoldable pub with_delta :
      Doc (node.Value) → (Doc (node.Value) → State → Outcome) → State → Outcome
  with_delta [] next s = (none, s)
  with_delta (d ∷ ds) next s =
      let (r, cell') = Defs.desire node (d ∷ ds) true s.cell in
      let s' : State = record s { cell = cell' } in
      elim r [
        | err e ↦ (some (node_failed e), s')
        | ok delta ↦ if lib.is_core then next delta s' else (none, s')
      ]

  -- The desire of a content, or the error of reading it.
  abbrev pub with_desire : Content → (Doc (node.Value) → State → Outcome) → State → Outcome
  with_desire c next s = elim (lib.as_desire c) [
    | failed e ↦ (some (bad_content e), s)
    | done d ↦ next d s
  ]

  -- `dispatch`, the case of a report
  unfoldable pub dispatch_report : Message Content → State → Outcome
  unfolding send_event sync_devices with_delta
  dispatch_report m s = elim (Defs.get node s.cell) [
    | err e ↦ (some (node_failed e), s)
    | ok _ ↦
        with_desire m.content
          (λ d. with_delta d (λ delta s'. and_then (send_event delta s') (sync_devices delta))) s
  ]

  unfoldable pub dispatch : Message Content → State → Outcome
  unfolding dispatch_report post send_event with_delta
  dispatch m s = elim (m.kind) [
    | report ↦ dispatch_report m s
    | cmd ↦ post topic_downside m s
    | data_message ↦ post topic_downside m s
    | device_delta ↦ post topic_dm m s
    | device_event ↦ post topic_dm m s
    | device_property_get ↦ post topic_dm m s
    | node_props ↦ with_desire m.content (λ d. with_delta d send_event) s
    | _ ↦ (none, s)
  ]

  abbrev pub report_message : Shadow (node.Value) → Message Content
  report_message shadow = record {
    kind = report;
    metadata = ("source", lib.service_name) ∷ [];
    content = lib.of_report shadow.report;
  }

  unfoldable pub report_async : Shadow (node.Value) → State → Outcome
  report_async shadow s = elim (lib.send_error (report_message shadow)) [
    | some e ↦ (some (link_failed e), s)
    | none ↦ (none, record s { sent = s.sent ++ (report_message shadow ∷ []) })
  ]

  -- The end of `reportAndDesire`: the devices are published only where no properties were.
  unfoldable pub sync_delta : Doc (node.Value) → State → Outcome
  unfolding props_in devices_in sync_devices post
  sync_delta delta s =
      if lib.notify
      then elim (props_in delta) [
        | some props ↦ post topic_event (props_message props) s
        | none ↦ sync_devices delta s
      ]
      else sync_devices delta s

  -- `reportAndDesire` over a link that answers: `Report`, and what is done with the desire.
  unfoldable pub report_sync : Shadow (node.Value) → State → Outcome
  unfolding with_delta sync_delta
  report_sync shadow s = elim (lib.request (report_message shadow)) [
    | failed e ↦ (some (link_failed e), s)
    | done res ↦ with_desire res.content (λ d. with_delta d sync_delta) s
  ]

  unfoldable pub report_and_desire : State → Outcome
  unfolding report_async report_sync
  report_and_desire s = elim (Defs.get node s.cell) [
    | err e ↦ (some (node_failed e), s)
    | ok shadow ↦ if lib.async then report_async shadow s else report_sync shadow s
  ]
