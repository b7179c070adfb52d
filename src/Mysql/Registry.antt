-- ===== src/Mysql/Registry.antt =====
-- mysql/decode/events/types/base_event_factory.go and base_event_context.go: the registry of event
-- decoders and the context of a stream. A decoder is of the parameter `D`; `types_of` is its
-- `GetEventType`. A map is a function from event types.
pub mod Laws
use go_dblog.Prelude.{
  ℕ, zero, suc, ◌+◌, ◌-◌, Bool, true, false, ◌||◌, Option, none, some, List, [], ◌∷◌, length,
  get_elem?, ◌==◌, leb, if◌then◌else◌, ◌⊎◌, inl, inr,
}
use go_dblog.Prelude.Int.{ℤ, pos, negsuc}
use go_dblog.Prelude.Text.{Bytes}
use go_dblog.Mysql.EventTypes.{builtin_name, builtin_type_name}
use go_dblog.Mysql.Description.{FmtDescEvent}
use go_dblog.Mysql.TableMap.{Tables}

pub data RegistryError : Type 0 where
  invalid_event_decoder : RegistryError
  event_type_registered : ℕ → RegistryError

pub record EventRegistry (D : Type 0) : Type 0 where
  pub decoders : ℕ → Option D
  pub names : ℕ → Option Bytes

unfoldable pub new_event_registry : {D : Type 0} → EventRegistry D
new_event_registry = record { decoders = λ _. none; names = λ _. none }

-- `m[key] = value`
abbrev pub put : {A : Type 0} → ℕ → A → (ℕ → Option A) → ℕ → Option A
put key value m t = if t == key then some value else m t

abbrev pub is_some : {A : Type 0} → Option A → Bool
is_some none = false
is_some (some a) = true

-- The first of the types that has a decoder.
unfoldable pub first_taken : {D : Type 0} → (ℕ → Option D) → List ℕ → Option ℕ
first_taken m [] = none
first_taken m (t ∷ ts) = let rest = first_taken m ts in if is_some (m t) then some t else rest

-- The loop that stores the decoder and the names of the types that have one.
unfoldable pub put_types : {D : Type 0} → D → List ℕ → EventRegistry D → EventRegistry D
unfolding builtin_name
put_types d [] r = r
put_types d (t ∷ ts) r = put_types d ts (record {
  decoders = put t d r.decoders;
  names = elim (builtin_name t) [ some name ↦ put t name r.names | none ↦ r.names ];
})

-- `Register`; a nil decoder is `none`.
unfoldable pub register_types :
    {D : Type 0} → D → List ℕ → EventRegistry D → Option ℕ → EventRegistry D × Option RegistryError
unfolding put_types
register_types d ts r (some t) = (r, some (event_type_registered t))
register_types d ts r none = (put_types d ts r, none)

unfoldable pub register_decoder :
    {D : Type 0}
    → (D → List ℕ)
    → Option D
    → EventRegistry D
    → EventRegistry D × Option RegistryError
unfolding register_types first_taken
register_decoder types_of none r = (r, some invalid_event_decoder)
register_decoder types_of (some d) r =
    register_types d (types_of d) r (first_taken r.decoders (types_of d))

-- `RegisterName`
unfoldable pub register_name : {D : Type 0} → ℕ → Bytes → EventRegistry D → EventRegistry D
register_name t name r = record r { names = put t name r.names }

-- `GetEventBodyDecoder`: a decoder, or the `MetadataEvent` of that type.
unfoldable pub get_event_body_decoder : {D : Type 0} → ℕ → EventRegistry D → D ⊎ ℕ
get_event_body_decoder t r = elim (r.decoders t) [ some d ↦ inl d | none ↦ inr t ]

-- `EventRegistry.KnowsEventType`
unfoldable pub registry_knows : {D : Type 0} → ℕ → EventRegistry D → Bool
unfolding builtin_name
registry_knows t r = is_some (r.decoders t) || is_some (r.names t) || is_some (builtin_name t)

-- `EventRegistry.EventTypeName`
unfoldable pub event_type_name : {D : Type 0} → ℕ → EventRegistry D → Bytes
unfolding builtin_type_name
event_type_name t r = elim (r.names t) [ some name ↦ name | none ↦ builtin_type_name t ]

pub record EventContext (D : Type 0) : Type 0 where
  pub description : Option FmtDescEvent
  pub table_info : Option Tables
  pub registry : EventRegistry D

-- `NewEventContext`, with a clone of the default registry.
unfoldable pub new_event_context : {D : Type 0} → EventRegistry D → EventContext D
new_event_context default_registry = record {
  description = none;
  table_info = some (λ _. none);
  registry = default_registry;
}

unfoldable pub context_has_checksum : {D : Type 0} → EventContext D → Bool
context_has_checksum c = elim c.description [ none ↦ false | some d ↦ d.has_check_sum ]

unfoldable pub get_event_header_length : {D : Type 0} → EventContext D → ℕ
get_event_header_length c = elim c.description [ none ↦ 19 | some d ↦ d.event_header_length ]

-- `EventPostHeaderLength`
unfoldable pub event_post_header_length : {D : Type 0} → EventContext D → ℕ → ℤ
event_post_header_length c zero = negsuc 0
event_post_header_length c (suc i) = elim c.description [
  | none ↦ negsuc 0
  | some d ↦ elim (get_elem? d.event_type_header i) [ none ↦ negsuc 0 | some n ↦ pos n ]
]

-- `EventContext.KnowsEventType`
unfoldable pub context_knows : {D : Type 0} → EventContext D → ℕ → Bool
unfolding registry_knows event_post_header_length
context_knows c t =
    registry_knows t c.registry
    || elim (event_post_header_length c t) [ pos n ↦ true | negsuc n ↦ false ]
