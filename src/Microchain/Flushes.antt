-- ===== src/Microchain/Flushes.antt =====
-- Lists of registrations and flushes: what the registry keeps of them.
use aii.Base.{
  ℕ, ◌<◌, ◌≡◌, ◌⊎◌, refl, sym, subst, List, none, some, Result, ok, err, Bool-cases, Option-cases,
  inl, inr, ◌==◌, if◌then◌else◌, arith,
}
use aii.Base.Maps.{
  map_get, map_insert, Increasing, map_get-insert, map_get-insert_other, insert-Increasing,
}
use aii.Microchain.{
  MicroChainSpec, FlushAnchor, Registry, MicroChainError, reserved_id, duplicate,
  invalid_flush_interval, unknown, main_chain, register, record_flush, last_flush,
}

-- The keys increase; a spec is under its id, which is not that of the main chain, with an interval; and
-- an anchor is that of a sub-chain.
pub record RegistryInv (r : Registry) : Type 0 where
  pub increasing : Increasing r.specs × Increasing r.anchors
  pub spec_ok :
      (id : ℕ) (spec : MicroChainSpec)
      → map_get id r.specs ≡ some spec
      → (spec.id ≡ id) × (main_chain < id) × (0 < spec.flush_interval_blocks)
  pub anchored :
      (id : ℕ) (anchor : FlushAnchor)
      → last_flush r id ≡ some anchor
      → (spec : MicroChainSpec) × (map_get id r.specs ≡ some spec)

-- The calls.
pub data Call : Type 0 where
  registration : MicroChainSpec → Call
  flush : ℕ → FlushAnchor → Call

abbrev pub apply_call : Registry → Call → Registry × Result MicroChainError Unit
apply_call r (registration spec) = register r spec
apply_call r (flush id anchor) = record_flush r id anchor

-- What a call may do: it fails and changes nothing, or it adds a spec under a new id, or sets the anchor
-- of a sub-chain, and keeps the rest.
abbrev pub Does : Registry → Call → Registry → Result MicroChainError Unit → Type 0
Does r (registration spec) r' result =
    ((e : MicroChainError) × (result ≡ err e) × (r' ≡ r))
    ⊎ ((result ≡ ok tt)
        × (map_get spec.id r.specs ≡ none)
        × (map_get spec.id r'.specs ≡ some spec)
        × ((id : ℕ)
            → (map_get id r'.specs ≡ (if spec.id == id then some spec else map_get id r.specs)))
        × (r'.anchors ≡ r.anchors))
Does r (flush id anchor) r' result =
    ((map_get id r.specs ≡ none) × (result ≡ err unknown) × (r' ≡ r))
    ⊎ ((result ≡ ok tt)
        × (r'.specs ≡ r.specs)
        × ((k : ℕ) → last_flush r' k ≡ (if id == k then some anchor else last_flush r k)))

get-insert_if :
    {V : Type 0} (k i : ℕ) (v : V) (m : List (ℕ × V))
    → map_get i (map_insert k v m) ≡ (if k == i then some v else map_get i m)
get-insert_if k i v m = elim (Bool-cases (k == i)) [
  | inl same ↦
      let at : k ≡ i = ground arith in
      let found : map_get i (map_insert k v m) ≡ some v =
        subst (λ j. map_get j (map_insert k v m) ≡ some v) at (map_get-insert k v m) in
      ground (arith, same, found)
  | inr other ↦ let kept = map_get-insert_other k i v m other in ground (arith, other, kept)
]

Outcome : Registry → Call → Registry × Result MicroChainError Unit → Type 0
Outcome r call o = RegistryInv o.0 × Does r call o.0 o.1

register-Outcome :
    (r : Registry) (spec : MicroChainSpec)
    → RegistryInv r
    → Outcome r (registration spec) (register r spec)
unfolding register Outcome last_flush
register-Outcome r spec i =
    let refused : (e : MicroChainError)
        → register r spec ≡ (r, err e)
        → Outcome r (registration spec) (register r spec) =
      λ e end. subst (Outcome r (registration spec)) (sym end) (i, inl (e, refl, refl)) in
    elim (Bool-cases (spec.id == main_chain)) [
      | inl main ↦ refused reserved_id (ground (arith, main))
      | inr sub ↦ elim (Option-cases (map_get spec.id r.specs)) [
        | inr (old, present) ↦ refused duplicate (ground (arith, sub, present))
        | inl absent ↦ elim (Bool-cases (spec.flush_interval_blocks == 0)) [
          | inl never ↦ refused invalid_flush_interval (ground (arith, sub, absent, never))
          | inr often ↦
              let r' = record r { specs = map_insert spec.id spec r.specs } in
              let end : register r spec ≡ (r', ok tt) = ground (arith, sub, absent, often) in
              let get : (id : ℕ)
                  → map_get id r'.specs
                    ≡ (if spec.id == id then some spec else map_get id r.specs) =
                λ id. get-insert_if spec.id id spec r.specs in
              subst (Outcome r (registration spec)) (sym end) (
                record {
                  increasing =
                      (insert-Increasing spec.id spec r.specs i.increasing.0, i.increasing.1);
                  spec_ok = λ id s h. elim (Bool-cases (spec.id == id)) [
                    | inl same ↦
                        let at : spec.id ≡ id = ground arith in
                        let now = get id in
                        let one : some spec ≡ some s = ground (arith, same, now, h) in
                        let is : spec ≡ s = cc in
                        subst (λ x. (x.id ≡ id) × (main_chain < id) × (0 < x.flush_interval_blocks))
                          is (at, ground (arith, sub, at), ground (arith, often))
                    | inr other ↦ let now = get id in i.spec_ok id s (ground (arith, other, now, h))
                  ];
                  anchored = λ id a h.
                      let (s, had) = i.anchored id a h in
                      let now = get id in
                      elim (Bool-cases (spec.id == id)) [
                        | inl same ↦ (spec, ground (arith, same, now))
                        | inr other ↦ (s, ground (arith, other, now, had))
                      ];
                },
                inr (refl, absent, map_get-insert spec.id spec r.specs, get, refl),
              )
        ]
      ]
    ]

record_flush-Outcome :
    (r : Registry) (id : ℕ) (anchor : FlushAnchor)
    → RegistryInv r
    → Outcome r (flush id anchor) (record_flush r id anchor)
unfolding record_flush Outcome last_flush
record_flush-Outcome r id anchor i = elim (Option-cases (map_get id r.specs)) [
  | inl absent ↦
      let end : record_flush r id anchor ≡ (r, err unknown) = ground (arith, absent) in
      subst (Outcome r (flush id anchor)) (sym end) (i, inl (absent, refl, refl))
  | inr (spec, present) ↦
      let r' = record r { anchors = map_insert id anchor r.anchors } in
      let end : record_flush r id anchor ≡ (r', ok tt) = ground (arith, present) in
      let get : (k : ℕ)
          → map_get k r'.anchors ≡ (if id == k then some anchor else map_get k r.anchors) =
        λ k. get-insert_if id k anchor r.anchors in
      subst (Outcome r (flush id anchor)) (sym end) (
        record {
          increasing = (i.increasing.0, insert-Increasing id anchor r.anchors i.increasing.1);
          spec_ok = i.spec_ok;
          anchored = λ k a h. elim (Bool-cases (id == k)) [
            | inl same ↦
                let at : id ≡ k = ground arith in
                (spec, subst (λ j. map_get j r.specs ≡ some spec) at present)
            | inr other ↦ let now = get k in i.anchored k a (ground (arith, other, now, h))
          ];
        },
        inr (refl, refl, get),
      )
]

-- From a registry where each spec is under its id, which is not 0, with an interval that is not 0, and
-- each anchor is that of a sub-chain, a registration or a flush keeps it so. A registration fails and
-- changes nothing, or adds the spec under an id that had none and changes nothing else. A flush fails
-- and changes nothing if the id is not registered, and else sets the anchor of this id alone.
pub apply_call-Does :
    (r : Registry) (call : Call)
    → RegistryInv r
    → let (r', result) = apply_call r call in RegistryInv r' × Does r call r' result
unfolding Outcome
apply_call-Does r (registration spec) i = register-Outcome r spec i
apply_call-Does r (flush id anchor) i = record_flush-Outcome r id anchor i
