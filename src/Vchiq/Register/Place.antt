-- ===== src/Vchiq/Register/Place.antt =====
-- Where `vchiq_add_service_internal` puts a service.
use dkms_rpi_codec.Base.{
  ℕ, zero, suc, ◌+◌, ◌≤◌, ◌<◌, ◌≡◌, refl, sym, ap, ◌∙◌, subst, ◌≢◌, ◌⊎◌, inl, inr, true, false,
  Option, none, some, some-injective, arith, ltb, ◌==◌, if◌then◌else◌, ==_iff, Bool-cases,
  Option-cases,
}
use dkms_rpi_codec.Vchiq.State.{State, Service, SrvState, opening, in_state, max_services}
use dkms_rpi_codec.Vchiq.Register.{Params, client_place, server_place, is_rival, place_for}
use dkms_rpi_codec.Vchiq.Service.Table.{IsTable}

-- The first empty place from `i` on, or the default.
pub record IsFirst (services : ℕ → Option Service) (i n : ℕ) (place out : Option ℕ) : Type 0 where
  pub chosen : ((p : ℕ) × (out ≡ some p) × (services p ≡ none) × (i ≤ p) × (p < n)) ⊎ (out ≡ place)
  pub before : (p : ℕ) → out ≡ some p → (j : ℕ) → i ≤ j → j < n → j < p → services j ≢ none

client_place_lem :
    (services : ℕ → Option Service) (left i : ℕ) (place : Option ℕ)
    → IsFirst services i (i + left) place (client_place services left i place)
unfolding client_place
client_place_lem services zero i place = record {
  chosen = inr refl;
  before = λ p e j lo hi lt. absurd (omega arith);
}
client_place_lem services (suc left) i place = elim (Option-cases (services i)) [
  | inl e ↦
      rw (e, client_place)
        (record {
          chosen = inl (i, refl, e, omega arith, omega arith);
          before = λ p eq j lo hi lt. absurd (at_start p eq j lo lt);
        })
  | inr (svc, e) ↦ rw (e, client_place) (later svc e (client_place_lem services left (i + 1) place))
]
  where
    at_start : (p : ℕ) → some i ≡ some p → (j : ℕ) → i ≤ j → j < p → ⊥
    at_start p eq j lo lt = omega (arith, some-injective i p eq)

    later :
        (svc : Service)
        → services i ≡ some svc
        → IsFirst services (i + 1) (i + 1 + left) place (client_place services left (i + 1) place)
        → IsFirst services i (i + suc left) place (client_place services left (i + 1) place)
    later svc e f = record {
      chosen = elim f.chosen [
        | inl (p, at, empty, lo, hi) ↦ inl (p, at, empty, omega arith, omega arith)
        | inr default ↦ inr default
      ];
      before = λ p eq j lo hi lt. elim (Bool-cases (i == j)) [
        | inl same ↦ λ gone. cc (ap services ((==_iff i j).0 same))
        | inr other ↦ f.before p eq j (ground arith) (omega arith) lt
      ];
    }

-- A place for a server below `n`, or the default, where no server below `n` is a rival.
pub record IsServerPlace (params : Params) (inst : ℕ) (services : ℕ → Option Service) (n : ℕ)
    (place : Option ℕ) (p : ℕ) : Type 0 where
  pub chosen : (services p ≡ none) × (p < n) ⊎ (some p ≡ place)
  pub no_rival :
      (j : ℕ) (svc : Service) → j < n → services j ≡ some svc → is_rival params inst svc ≡ false

server_place_lem :
    (params : Params) (inst : ℕ) (services : ℕ → Option Service) (n : ℕ) (place : Option ℕ) (p : ℕ)
    → server_place params inst services n place ≡ some p
    → IsServerPlace params inst services n place p
unfolding server_place
server_place_lem params inst services zero place p e = record {
  chosen = inr (sym e);
  no_rival = λ j svc h. absurd (omega arith);
}
server_place_lem params inst services (suc n) place p e = elim (Option-cases (services n)) [
  | inl gap ↦
      over_gap gap
        (server_place_lem params inst services n (some n) p (rw (gap, server_place) at e))
  | inr (svc, at) ↦ elim (Bool-cases (is_rival params inst svc)) [
    | inl rival ↦ absurd (cc (rw (at, server_place, rival) at e))
    | inr fine ↦
        over_service svc at fine
          (server_place_lem params inst services n place p (rw (at, server_place, fine) at e))
  ]
]
  where
    over_gap :
        services n ≡ none
        → IsServerPlace params inst services n (some n) p
        → IsServerPlace params inst services (suc n) place p
    over_gap gap f = record {
      chosen = elim f.chosen [
        | inl empty ↦ inl (empty.0, omega (arith, empty.1))
        | inr here ↦ inl (
          subst (λ k. services k ≡ none) (sym (some-injective p n here)) gap,
          omega (arith, some-injective p n here),
        )
      ];
      no_rival = λ j svc lt h. elim (Bool-cases (n == j)) [
        | inl same ↦ cc (ap services ((==_iff n j).0 same))
        | inr other ↦ f.no_rival j svc (ground arith) h
      ];
    }

    over_service :
        (svc : Service)
        → services n ≡ some svc
        → is_rival params inst svc ≡ false
        → IsServerPlace params inst services n place p
        → IsServerPlace params inst services (suc n) place p
    over_service svc at fine f = record {
      chosen = elim f.chosen [
        | inl empty ↦ inl (empty.0, omega (arith, empty.1))
        | inr default ↦ inr default
      ];
      no_rival = λ j other lt h. elim (Bool-cases (n == j)) [
        | inl same ↦
            subst (λ o. is_rival params inst o ≡ false)
              (some-injective svc other (sym at ∙ ap services ((==_iff n j).0 same) ∙ h)) fine
        | inr differ ↦ f.no_rival j other (ground arith) h
      ];
    }

unused_place : State → Option ℕ
unused_place s = if ltb s.unused_service max_services then some s.unused_service else none

unused_place-some :
    (s : State) (p : ℕ)
    → IsTable s
    → some p ≡ unused_place s
    → (s.services p ≡ none) × (p ≤ s.unused_service) × (p < max_services)
unfolding unused_place
unused_place-some s p t e = elim (Bool-cases (ltb s.unused_service max_services)) [
  | inr full ↦ absurd (cc (rw full at e))
  | inl room ↦ found room (some-injective p s.unused_service (rw room at e))
]
  where
    gap : s.services s.unused_service ≡ none
    gap = elim (Option-cases (s.services s.unused_service)) [
      | inl e ↦ e
      | inr (svc, h) ↦ absurd (omega (arith, (t.entries s.unused_service svc h).1))
    ]

    found :
        ltb s.unused_service max_services ≡ true
        → p ≡ s.unused_service
        → (s.services p ≡ none) × (p ≤ s.unused_service) × (p < max_services)
    found room at = (rw at gap, omega arith, ground arith)

-- The place of a new service is empty, and at most the first that was never used.
pub place_for-empty :
    (s : State) (params : Params) (st : SrvState) (inst p : ℕ)
    → IsTable s
    → place_for s params st inst ≡ some p
    → (s.services p ≡ none) × (p ≤ s.unused_service) × (p < max_services)
unfolding place_for
place_for-empty s params st inst p t e = elim (Bool-cases (in_state st opening)) [
  | inl client ↦ elim (client_place_lem s.services s.unused_service 0 (unused_place s)).chosen [
    | inl (k, at, empty, lo, hi) ↦
        subst Empty (some-injective k p (sym at ∙ asked_client client))
          (empty, omega arith, omega (arith, t.bounded))
    | inr default ↦ unused_place-some s p t (sym (asked_client client) ∙ default)
  ]
  | inr server ↦
      elim (server_place_lem params inst s.services s.unused_service (unused_place s) p
        (asked_server server)).chosen [
          | inl empty ↦ (empty.0, omega (arith, empty.1), omega (arith, empty.1, t.bounded))
          | inr default ↦ unused_place-some s p t default
        ]
]
  where
    Empty : ℕ → Type 0
    Empty k = (s.services k ≡ none) × (k ≤ s.unused_service) × (k < max_services)

    asked_client :
        in_state st opening ≡ true
        → client_place s.services s.unused_service 0 (unused_place s) ≡ some p
    asked_client client = unfold unused_place in (rw client at e)

    asked_server :
        in_state st opening ≡ false
        → server_place params inst s.services s.unused_service (unused_place s) ≡ some p
    asked_server server = unfold unused_place in (rw server at e)

-- A client is placed at the lowest empty place among those that were used before: every lower one
-- has a service.
pub client_takes_lowest :
    (s : State) (params : Params) (inst p j : ℕ)
    → place_for s params opening inst ≡ some p
    → j < s.unused_service
    → j < p
    → s.services j ≢ none
unfolding place_for
client_takes_lowest s params inst p j e lo lt =
    (client_place_lem s.services s.unused_service 0 _).before p e j (omega arith) (omega arith) lt

-- A server is placed only where no service in the table is a rival: one of another instance, or with
-- another callback, that has its fourcc.
pub server_has_no_rival :
    (s : State) (params : Params) (st : SrvState) (inst p j : ℕ) (svc : Service)
    → in_state st opening ≡ false
    → place_for s params st inst ≡ some p
    → j < s.unused_service
    → s.services j ≡ some svc
    → is_rival params inst svc ≡ false
unfolding place_for
server_has_no_rival s params st inst p j svc server e lo at =
    (server_place_lem params inst s.services s.unused_service _ p (rw server at e)).no_rival j svc
      lo at
