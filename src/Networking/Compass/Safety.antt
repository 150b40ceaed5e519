-- ===== src/Networking/Compass/Safety.antt =====
-- What a protocol handler is called with.
use aevros.Base.{
  ℕ, ◌-◌, ◌≤◌, ◌≡◌, ap, ◌∙◌, inl, inr, true, false, some, none, sym, Option, List, arith, ◌==◌,
  length, Bool-cases, take, drop, length-take, length-drop, is_some, find,
}
use aevros.Networking.Compass.{
  State, Clock, Delivery, src_ip, dst_ip, admit, deliver, handle, dispatch, header_len, total_len,
  version, is_fragment, checksum_ok, byte,
}
use aevros.Networking.Compass.Ways.{
  good_header, rule, in_time, disputed, passes, checked, after_asked, verdict-cases, handle-bad,
  handle-banned, handle-favoured, handle-asked,
}

-- A header that `compass_check` accepts.
pub record IsHeader (payload : List ℕ) : Type 0 where
  pub version_four : version payload ≡ 4
  pub header : 20 ≤ header_len payload
  pub inside : header_len payload ≤ total_len payload
  pub received : total_len payload ≤ length payload
  pub whole : is_fragment payload ≡ false
  pub checksum : checksum_ok (take (header_len payload) payload) ≡ true

header : (payload : List ℕ) → good_header payload ≡ true → IsHeader payload
header payload h = record {
  version_four = ground (arith, h);
  header = ground (arith, h);
  inside = ground (arith, h);
  received = ground (arith, h);
  whole = ground (arith, h);
  checksum = ground (arith, h);
}

-- A handler is called with the bytes after the header, as many as the total length says: all of
-- them were received.
pub record IsDelivery (t : Clock) (payload : List ℕ) (s : State) (d : Delivery) : Type 0 where
  pub good : IsHeader payload
  pub admitted : passes t payload s ≡ true
  pub protocol : d.protocol ≡ byte 9 payload
  pub bytes :
      d.payload ≡ take (total_len payload - header_len payload) (drop (header_len payload) payload)
  pub count : length d.payload ≡ total_len payload - header_len payload
  pub sender : d.src_ip ≡ src_ip payload
  pub receiver : d.dst_ip ≡ dst_ip payload

none_given : (d : Delivery) → ¬ (none ≡ some d)
none_given d h = ground (arith, h)

admit-passes :
    (directory : List ℕ) (t : Clock) (payload src_mac : List ℕ) (s : State) (d : Delivery)
    → (admit directory t payload src_mac s).0 ≡ some d
    → (disputed payload s ≡ false) × (dispatch directory payload ≡ some d)
unfolding admit deliver
admit-passes directory t payload src_mac s d h = (ground (arith, h), ground (arith, h))

delivers-passes :
    (directory : List ℕ) (t : Clock) (payload src_mac : List ℕ) (s : State) (d : Delivery)
    → (handle directory t payload src_mac s).0 ≡ some d
    → (passes t payload s ≡ true) × (dispatch directory payload ≡ some d)
delivers-passes directory t payload src_mac s d h = elim (Bool-cases (good_header payload)) [
  | inr bad ↦ absurd (none_given d (given (handle-bad directory t payload src_mac s bad)))
  | inl good ↦ elim (verdict-cases (rule payload s)) [
    | inr (inr r) ↦
        absurd (none_given d (given (handle-banned directory t payload src_mac s good r)))
    | inr (inl r) ↦
        let (calm, sent) =
          admit-passes directory t payload src_mac s d
            (given (handle-favoured directory t payload src_mac s good r)) in
        (ground (arith, good, r, calm), sent)
    | inl r ↦
        let way = handle-asked directory t payload src_mac s good r in
        elim (Bool-cases (in_time t payload s)) [
          | inr l ↦
              absurd (none_given d (given (way ∙ ap (after_asked directory t payload src_mac s) l)))
          | inl l ↦
              let (calm, sent) =
                admit-passes directory t payload src_mac (checked directory t payload src_mac s) d
                  (given (way ∙ ap (after_asked directory t payload src_mac s) l)) in
              (ground (arith, good, r, l, calm), sent)
        ]
  ]
]
  where
    given : {r : Option Delivery × State} → handle directory t payload src_mac s ≡ r → r.0 ≡ some d
    given e = ap (λ (p : Option Delivery × State). p.0) (sym e) ∙ h

abbrev call : List ℕ → Delivery
call payload = record {
  protocol = byte 9 payload;
  payload = take (total_len payload - header_len payload) (drop (header_len payload) payload);
  src_ip = src_ip payload;
  dst_ip = dst_ip payload;
}

dispatch-call :
    (directory payload : List ℕ) (d : Delivery)
    → dispatch directory payload ≡ some d
    → d ≡ call payload
unfolding dispatch
dispatch-call directory payload d h =
    elim (Bool-cases (is_some (find (λ p. p == byte 9 payload) directory))) [
      | inl e ↦ ground (arith, h, e)
      | inr e ↦ absurd (ground (arith, h, e))
    ]

-- A handler is called only for a packet with a good header that no module refuses, and with the
-- bytes after its header: as many as its total length says, all of them received.
pub handle-IsDelivery :
    (directory : List ℕ) (t : Clock) (payload src_mac : List ℕ) (s : State) (d : Delivery)
    → (handle directory t payload src_mac s).0 ≡ some d
    → IsDelivery t payload s d
handle-IsDelivery directory t payload src_mac s d h =
    let (passed, sent) = delivers-passes directory t payload src_mac s d h in
    let is_call = dispatch-call directory payload d sent in
    let good = header payload (ground (arith, passed)) in
    let n = total_len payload - header_len payload in
    let behind = drop (header_len payload) payload in
    record {
      good = good;
      admitted = passed;
      protocol = ap (λ x. x.protocol) is_call;
      bytes = ap (λ x. x.payload) is_call;
      count =
          ap (λ x. length x.payload) is_call
          ∙ (omega (
            arith,
            length-take n behind,
            length-drop (header_len payload) payload,
            good.received,
          ));
      sender = ap (λ x. x.src_ip) is_call;
      receiver = ap (λ x. x.dst_ip) is_call;
    }
