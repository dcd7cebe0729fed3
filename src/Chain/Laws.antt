-- ===== src/Chain/Laws.antt =====
-- The topic and the options of a session are those of its request.
use baetyl.Base.{String, Bool, ◌&&◌, Option, none, some, ◌≡◌, arith, string_eq}
use baetyl.Base.Dict
use baetyl.Base.Dict.{Dict}
use baetyl.Message.{done, Bus, BusLib}
use baetyl.Chain.{DebugOptions, Chain, kube_options, link_options, topic_of, parse_data, new_chain}

abbrev pub get : String → Dict String String → String
get k fields = elim (Dict.lookup k fields) [ none ↦ "" | some v ↦ v ]

-- The session is of the process and under the token that the fields name.
pub record IsOf (fields : Dict String String) (c : Chain) : Type 0 where
  pub token : c.token ≡ get "token" fields
  pub namespace : c.options.namespace ≡ get "namespace" fields
  pub name : c.options.name ≡ get "name" fields
  pub container : c.options.container ≡ get "container" fields
  pub downside :
      c.downside
      ≡ topic_of
          (get "namespace" fields)
          (get "name" fields)
          (get "container" fields)
          (get "token" fields)

link_options-keeps :
    (ssh : Bool) (fields : Dict String String) (opt opt' : DebugOptions)
    → link_options ssh fields opt ≡ done opt'
    → (opt'.namespace ≡ opt.namespace) × (opt'.name ≡ opt.name) × (opt'.container ≡ opt.container)
unfolding link_options
link_options-keeps ssh fields opt opt' h = ground arith

parse_data-IsOf :
    (ssh : Bool) (fields : Dict String String) (c : Chain)
    → parse_data ssh fields ≡ done c
    → IsOf fields c
unfolding parse_data
parse_data-IsOf ssh fields c h =
    let k = kube_options (get "namespace" fields) (get "name" fields) (get "container" fields) in
    record {
      token = ground arith;
      namespace = ground (arith, link_options-keeps ssh fields k c.options);
      name = ground (arith, link_options-keeps ssh fields k c.options);
      container = ground (arith, link_options-keeps ssh fields k c.options);
      downside = ground arith;
    }

pub new_chain-IsOf :
    {C : Type 0} (lib : BusLib C) (plugin : Option String) (native need_native : Bool)
    (fields : Dict String String) (bus bus' : Bus C) (c : Chain)
    → new_chain lib plugin native need_native fields bus ≡ (done c, bus')
    → IsOf fields c
unfolding new_chain
new_chain-IsOf lib (some e) native need_native fields bus bus' c h = cc
new_chain-IsOf lib none native need_native fields bus bus' c h =
    parse_data-IsOf (native && need_native) fields c (ground arith)
