-- ===== src/Evolution.antt =====
-- What a database keeps when it evolves, as a preorder for the interface `Writes`.
pub mod Statements
pub mod Stores
pub mod Handlers
pub mod Dispatch
use anp_server_go.Common.{
  List, Option, String, [], arith, is_some, none, pair_eq, refl, some, string_eq, sym, true, ◌++◌,
  ◌∙◌, ◌≡◌, ◌≢◌, ◌≤◌,
}
use mathlib.Core.List.{append_assoc}
use mathlib.Core.Path.{subst}
use anp_server_go.Common.Dict.{Dict, lookup}
use anp_server_go.Json.{Fields, GoMap}
use anp_server_go.Moves.{Preorder}
use anp_server_go.Store.{CryptoState, Db, GroupRow, KeyPackage, Member, Object, OneTimePrekey, Slot}

-- A binding to a DID that is not empty stays.
abbrev pub BindingKept : Option String → Option String → Type 0
BindingKept none after = Unit
BindingKept (some did) after = did ≢ "" → after ≡ some did

-- A row that is there stays as it is.
abbrev pub RowKept {ℓ} : {V : Type ℓ} → Option V → Option V → Type ℓ
RowKept none after = Unit
RowKept (some v) after = after ≡ some v

pub kept_row {ℓ} :
    {V : Type ℓ} {before after : Option V} {v : V}
    → RowKept before after
    → before ≡ some v
    → after ≡ some v
kept_row {after} kept found = subst (λ o. RowKept o after) found kept

-- A key that is there stays.
abbrev pub KeyKept {ℓ} : {V : Type ℓ} → Option V → Option V → Type 0
KeyKept none after = Unit
KeyKept (some v) after = is_some after ≡ true

-- A group keeps its creator and its creation time, and its counters do not fall.
abbrev pub GroupKept : Option GroupRow → Option GroupRow → Type 0
GroupKept none after = Unit
GroupKept (some r) none = ⊥
GroupKept (some r) (some r') =
    (r'.owner_did ≡ r.owner_did)
    × (r'.created_at ≡ r.created_at)
    × (r.group_state_version ≤ r'.group_state_version)
    × (r.group_event_seq ≤ r'.group_event_seq)

-- The new rows stand in front of the old ones.
abbrev pub Extends {ℓ} : {A : Type ℓ} → List A → List A → Type ℓ
Extends {A} old new = (added : List A) × (new ≡ added ++ old)

pub record Evolves (s t : Db) : Type 0 where
  pub handles : (handle : String) → BindingKept (lookup handle s.handles) (lookup handle t.handles)
  pub groups : (gid : String) → GroupKept (lookup gid s.groups) (lookup gid t.groups)
  pub messages : Extends s.messages t.messages
  pub last_id : s.last_id ≤ t.last_id
  pub dids : (did : String) → KeyKept (lookup did s.registered_dids) (lookup did t.registered_dids)
  pub tickets :
      (ticket : String)
      → RowKept (lookup ticket s.attachment_tickets) (lookup ticket t.attachment_tickets)
  pub responses : (key : String) → RowKept (lookup key s.idempotency) (lookup key t.idempotency)

pub BindingKept-refl : (o : Option String) → BindingKept o o
BindingKept-refl none = tt
BindingKept-refl (some d) = λ _. refl

pub RowKept-refl {ℓ} : {V : Type ℓ} (o : Option V) → RowKept o o
RowKept-refl none = tt
RowKept-refl (some v) = refl

pub KeyKept-refl {ℓ} : {V : Type ℓ} (o : Option V) → KeyKept o o
KeyKept-refl none = tt
KeyKept-refl (some v) = refl

pub GroupKept-refl : (o : Option GroupRow) → GroupKept o o
GroupKept-refl none = tt
GroupKept-refl (some r) = (refl, refl, omega arith, omega arith)

pub Evolves-refl : (s : Db) → Evolves s s
Evolves-refl s = record {
  handles = λ h. BindingKept-refl _;
  groups = λ g. GroupKept-refl _;
  messages = ([], refl);
  last_id = omega arith;
  dids = λ d. KeyKept-refl _;
  tickets = λ t. RowKept-refl _;
  responses = λ k. RowKept-refl _;
}

-- One changed table at a time.
module _ (s : Db) where
  pub Evolves-groups :
      (groups : Dict String GroupRow)
      → ((gid : String) → GroupKept (lookup gid s.groups) (lookup gid groups))
      → Evolves s (record s { groups = groups })
  Evolves-groups groups kept =
      let r = Evolves-refl s in
      record {
        handles = r.handles;
        groups = kept;
        messages = r.messages;
        last_id = r.last_id;
        dids = r.dids;
        tickets = r.tickets;
        responses = r.responses;
      }

  pub Evolves-handles :
      (handles : Dict String String)
      → ((handle : String) → BindingKept (lookup handle s.handles) (lookup handle handles))
      → Evolves s (record s { handles = handles })
  Evolves-handles handles kept =
      let r = Evolves-refl s in
      record {
        handles = kept;
        groups = r.groups;
        messages = r.messages;
        last_id = r.last_id;
        dids = r.dids;
        tickets = r.tickets;
        responses = r.responses;
      }

  pub Evolves-dids :
      (dids : Dict String Fields)
      → ((did : String) → KeyKept (lookup did s.registered_dids) (lookup did dids))
      → Evolves s (record s { registered_dids = dids })
  Evolves-dids dids kept =
      let r = Evolves-refl s in
      record {
        handles = r.handles;
        groups = r.groups;
        messages = r.messages;
        last_id = r.last_id;
        dids = kept;
        tickets = r.tickets;
        responses = r.responses;
      }

  -- The tables of which `Evolves` says nothing.
  pub Evolves-rest :
      {members : Dict (String × String) Member} {bundles : Dict String GoMap}
      {prekeys : List OneTimePrekey} {packages : Dict String KeyPackage}
      {states : Dict (String × String) CryptoState} {slots : Dict String Slot}
      {objects : Dict String Object}
      → Evolves s (record s {
        group_members = members;
        prekey_bundles = bundles;
        one_time_prekeys = prekeys;
        group_key_packages = packages;
        group_e2ee_states = states;
        attachment_slots = slots;
        attachment_objects = objects;
      })
  Evolves-rest =
      let r = Evolves-refl s in
      record {
        handles = r.handles;
        groups = r.groups;
        messages = r.messages;
        last_id = r.last_id;
        dids = r.dids;
        tickets = r.tickets;
        responses = r.responses;
      }

BindingKept-trans : (a b c : Option String) → BindingKept a b → BindingKept b c → BindingKept a c
BindingKept-trans none b c h k = tt
BindingKept-trans (some d) none c h k = λ ne. cc (h ne)
BindingKept-trans (some d) (some d') c h k = λ ne. subst (λ o. BindingKept o c) (h ne) k ne

RowKept-trans {ℓ} : {V : Type ℓ} (a b c : Option V) → RowKept a b → RowKept b c → RowKept a c
RowKept-trans none b c h k = tt
RowKept-trans (some d) none c h k = cc
RowKept-trans (some d) (some d') c h k = cc

KeyKept-trans {ℓ} : {V : Type ℓ} (a b c : Option V) → KeyKept a b → KeyKept b c → KeyKept a c
KeyKept-trans none b c h k = tt
KeyKept-trans (some d) none c h k = cc
KeyKept-trans (some d) (some d') c h k = k

GroupKept-trans : (a b c : Option GroupRow) → GroupKept a b → GroupKept b c → GroupKept a c
GroupKept-trans none b c h k = tt
GroupKept-trans (some r) none c h k = absurd h
GroupKept-trans (some r) (some r') none h k = absurd k
GroupKept-trans (some r) (some r') (some r'') h k = (k.0 ∙ h.0, k.1 ∙ h.1, omega arith, omega arith)

Extends-trans {ℓ} : {A : Type ℓ} (a b c : List A) → Extends a b → Extends b c → Extends a c
Extends-trans a b c (xs, p) (ys, q) = (ys ++ xs, q ∙ (rw p (sym (append_assoc ys xs a))))

pub Evolves-trans : (s t u : Db) → Evolves s t → Evolves t u → Evolves s u
Evolves-trans s t u h k = record {
  handles = λ x. BindingKept-trans _ (lookup x t.handles) _ (h.handles x) (k.handles x);
  groups = λ x. GroupKept-trans _ (lookup x t.groups) _ (h.groups x) (k.groups x);
  messages = Extends-trans _ t.messages _ h.messages k.messages;
  last_id = omega (arith, h.last_id, k.last_id);
  dids = λ x. KeyKept-trans _ (lookup x t.registered_dids) _ (h.dids x) (k.dids x);
  tickets = λ x. RowKept-trans _ (lookup x t.attachment_tickets) _ (h.tickets x) (k.tickets x);
  responses = λ x. RowKept-trans _ (lookup x t.idempotency) _ (h.responses x) (k.responses x);
}

abbrev pub evolution : Preorder
evolution = record { Rel = Evolves; rel_refl = Evolves-refl; rel_trans = Evolves-trans }
