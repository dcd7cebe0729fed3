-- ===== src/Tests/Shadow.antt =====
-- sync over a link that answers, on a shadow whose values are numbers: the properties are those above 0.
use baetyl.Base.{ℕ, true, false, none, some, [], ◌∷◌, ◌≡◌, inl, refl, string_eq, nat_eq}
use baetyl.Base.Dict
use baetyl.Message.{done, report, Message, topic_event, topic_dm}
use baetyl.Node.Defs
use baetyl.Node.Defs.{Shadow, Doc, ok}
use baetyl.Sync.Shadow.{
  Lib, State, props_in, devices_in, props_message, devices_message, dispatch, report_and_desire,
}
use baetyl.Sync.Shadow.Laws.{Answered, report_and_desire-dispatch, answer_drops_devices}
use baetyl.Tests.Node.{plain}

-- The content of each answer.
abbrev wanted : Doc ℕ
wanted = ("nodeprops", 7) ∷ ("devices", 3) ∷ []

abbrev props : Doc ℕ
props = ("p", 1) ∷ []

abbrev mapped : Defs.Lib
mapped = record plain { as_map = λ v. some props }

abbrev lib : Lib
lib = record {
  node = mapped;
  Content = Doc ℕ;
  as_desire = λ c. done c;
  of_report = λ r. [];
  of_props = λ d. d;
  of_devices = λ l. [];
  as_list = λ v. some (v ∷ []);
  key_devices = "devices";
  key_node_props = "nodeprops";
  bus = record {
    publish_error = λ t m. none;
    subscribe_error = λ t. none;
    unsubscribe_error = λ t. none;
  };
  async = false;
  send_error = λ m. none;
  request = λ m. done (record { kind = report; metadata = []; content = wanted });
  notify = true;
  is_core = true;
  service_name = "baetyl-core";
}

abbrev silent : Lib
silent = record lib { notify = false }

abbrev doc : Shadow ℕ
doc = record { created = 3; desire = some (("a", 1) ∷ []); report = some (("a", 2) ∷ []) }

abbrev answer : Message (Doc ℕ)
answer = record { kind = report; metadata = []; content = wanted }

report_and_desire-dispatch_example :
    let s : State silent = record {
      cell = some doc;
      bus = record { published = []; subscribed = [] };
      sent = [];
    } in
    report_and_desire silent s ≡ dispatch silent answer s
unfolding Defs.get Defs.load nat_eq
report_and_desire-dispatch_example =
    report_and_desire-dispatch silent doc answer wanted
      (record { cell = some doc; bus = record { published = []; subscribed = [] }; sent = [] }) refl
      refl refl refl (inl refl)

abbrev ready : State lib
ready = record { cell = some doc; bus = record { published = []; subscribed = [] }; sent = [] }

answered : Answered lib answer ("nodeprops", 7) (("devices", 3) ∷ []) wanted ready
unfolding Defs.get Defs.load Defs.desire Defs.desire_body Defs.new_desire Defs.save nat_eq
answered = record {
  shadow = doc;
  loaded = refl;
  sync = refl;
  answer = refl;
  content = refl;
  changed = refl;
  core = refl;
}

answer_drops_devices_example :
    ((report_and_desire lib ready).1.bus.published ≡ ((topic_event, props_message lib props) ∷ []))
    × ((dispatch lib answer ready).1.bus.published
        ≡ (topic_event, props_message lib props) ∷ (topic_dm, devices_message lib (3 ∷ [])) ∷ [])
unfolding props_in devices_in Dict.lookup string_eq
answer_drops_devices_example =
    answer_drops_devices lib answer ("nodeprops", 7) (("devices", 3) ∷ []) wanted props (3 ∷ [])
      ready answered refl refl refl (λ topic m. refl)
