-- ===== src/Tests/Host.antt =====
-- A machine and an object that meet what natto64 relies on, for the tests.
use Prim.Native.String.{String}
use text.Mathlib.Text.{◌==◌}
use text.Mathlib.TextPositions.{eq_refl}
use natto.Common.{
  ◌≡◌, sym, ap, ◌∙◌, ◌⊎◌, inl, inr, [], ◌∷◌, Bool, true, false, ◌||◌, Option, none, some,
  if◌then◌else◌, Bool-cases,
}
use natto.Abi.{Nat64Config}
use natto.Userspace.System.{System, IsSystem, Text}

-- One configuration map, and the programs that were loaded and attached.
pub record Object : Type 0 where
  pub config : Option Nat64Config
  pub loaded : String → Bool
  pub attached : String → Bool

abbrev with_name : String → (String → Bool) → String → Bool
with_name name names other = other == name || names other

abbrev load_program : Object → String → Unit {0} ⊎ Object
load_program e name =
    if e.loaded name then inl tt else inr (record e { loaded = with_name name e.loaded })

-- An interface with a name of one letter takes no classifier.
abbrev attach_ingress : Unit {0} → Object → String → Text → Unit {0} ⊎ (Unit {0} × Object)
attach_ingress os e name [] = inl tt
attach_ingress os e name (c ∷ []) = inl tt
attach_ingress os e name (c ∷ d ∷ cs) = inr (os, record e { attached = with_name name e.attached })

-- Every file holds the line `12`.
abbrev pub host : System
host = record {
  IoError = Unit {0};
  EbpfError = Unit {0};
  MapError = Unit {0};
  ProgramError = Unit {0};
  TcError = Unit {0};
  NetlinkError = Unit {0};
  is_already_attached = λ e. true;
  netlink_error = λ e. none;
  raw_os_error = λ e. none;
  Os = Unit {0};
  read = λ os path. inr [];
  read_to_string = λ os path. inr (49 ∷ 50 ∷ 10 ∷ []);
  qdisc_add_clsact = λ os interface. inl tt;
  Ebpf = Object;
  load = λ object. inr (record { config = none; loaded = λ p. false; attached = λ p. false });
  has_map = λ e map. true;
  as_hash_map = λ e map. none;
  insert = λ e map key value. inr (record e { config = some value });
  as_per_cpu_array = λ e map. none;
  get_per_cpu = λ e map key. inr [];
  has_program = λ e program. true;
  as_classifier = λ e program. none;
  load_program = load_program;
  attach_ingress = attach_ingress;
  get = λ e map key. e.config;
  IsLoaded = λ e program. e.loaded program ≡ true;
  IsAttached = λ os e program interface. e.attached program ≡ true;
}

with_name_self : (name : String) (names : String → Bool) → with_name name names name ≡ true
with_name_self name names = rw eq_refl

with_name_keeps :
    (name other : String) (names : String → Bool)
    → names other ≡ true
    → with_name name names other ≡ true
with_name_keeps name other names h = elim (Bool-cases (other == name)) [
  | inl e ↦ rw e
  | inr e ↦ rw e h
]

-- What a load that succeeds gives.
loaded_lem :
    (e : Object) (name : String) {e' : Object}
    → load_program e name ≡ inr e'
    → e' ≡ record e { loaded = with_name name e.loaded }
loaded_lem e name h = elim (Bool-cases (e.loaded name)) [
  | inl there ↦ absurd (inl-ne-inr (rw there at h))
  | inr fresh ↦ sym (inr-injective (rw fresh at h))
]
  where
    inl-ne-inr : {A B : Type 0} {a : A} {b : B} → inl a ≡ inr b → ⊥
    inl-ne-inr q = cc

    inr-injective : {A B : Type 0} {a b : B} → ◌≡◌ {A = A ⊎ B} (inr a) (inr b) → a ≡ b
    inr-injective q = cc

attached_lem :
    (os : Unit {0}) (e : Object) (name : String) (interface : Text) {os' : Unit {0}} {e' : Object}
    → attach_ingress os e name interface ≡ inr (os', e')
    → e' ≡ record e { attached = with_name name e.attached }
attached_lem os e name [] h = absurd (cc)
attached_lem os e name (c ∷ []) h = absurd (cc)
attached_lem os e name (c ∷ d ∷ cs) h = sym (second h)
  where
    second :
        {A : Type 0} {a b : Unit {0} × Object}
        → ◌≡◌ {A = A ⊎ (Unit {0} × Object)} (inr a) (inr b)
        → a.1 ≡ b.1
    second q = cc

pub host-IsSystem : IsSystem host
host-IsSystem = record {
  get-insert = λ e map key value {e'} h. sym (ap (λ (o : Object). o.config) (inserted h));
  get-load = λ e program map key {e'} h. ap (λ (o : Object). o.config) (loaded_lem e program h);
  get-attach = λ os e program map interface key {os'} {e'} h.
      ap (λ (o : Object). o.config) (attached_lem os e program interface h);
  load_once = λ e program h. (tt, rw h);
  load-IsLoaded = λ e program {e'} h. rw (loaded_lem e program h) (with_name_self program e.loaded);
  IsLoaded-insert = λ e program map key value {e'} h l.
      ap (λ (o : Object). o.loaded program) (sym (inserted h)) ∙ l;
  IsLoaded-load = λ e program other {e'} h l.
      rw (loaded_lem e program h) (with_name_keeps program other e.loaded l);
  IsLoaded-attach =
      λ os e program other interface {os'} {e'} h l. rw (attached_lem os e program interface h) l;
  attach-IsAttached = λ os e program interface {os'} {e'} h.
      rw (attached_lem os e program interface h) (with_name_self program e.attached);
  IsAttached-load = λ os e program other interface {e'} h a. rw (loaded_lem e program h) a;
  IsAttached-attach = λ os e program other interface at {os'} {e'} h a.
      rw (attached_lem os e program interface h) (with_name_keeps program other e.attached a);
  IsAttached-clsact = λ os e program interface at {os'} h a. a;
  IsAttached-insert = λ os e program map interface key value {e'} h a.
      ap (λ (o : Object). o.attached program) (sym (inserted h)) ∙ a;
}
  where
    inserted : {A : Type 0} {a b : Object} → ◌≡◌ {A = A ⊎ Object} (inr a) (inr b) → a ≡ b
    inserted q = cc
