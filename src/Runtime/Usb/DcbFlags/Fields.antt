-- ===== src/Runtime/Usb/DcbFlags/Fields.antt =====
-- The packed flags of crates/runtime/src/usb/mod.rs as a record of fields.
use msft.Runtime.Usb.{CommCodes, DtrControl, RtsControl}
use msft.Runtime.Usb.Controls.{
  set_dtr_control, set_rts_control, get_dtr_control, get_rts_control, controls-read_back,
}
use msft.Runtime.Usb.DcbFlags.{
  Flag, binary, parity, outx_cts_flow, outx_dsr_flow, dsr_sensitivity, tx_continue_on_xoff, out_x,
  in_x, error_char, null, abort_on_error, position_of, set_f, get_f, Setter, flag, dtr, rts, apply,
  apply_all,
}
use msft.Runtime.Usb.Flags.{get_flag-set_flag, get_flag-set_control, get_control-set_flag}
use msft.Prelude.{
  ℕ, ◌+◌, ◌<◌, ◌≡◌, ◌≢◌, Bool, List, [], ◌∷◌, some, Faulty, ◌==◌, if◌then◌else◌, ltb, arith, refl,
}

-- The flags in the order in which they are declared.
abbrev pub index_of : Flag → ℕ
index_of binary = 0
index_of parity = 1
index_of outx_cts_flow = 2
index_of outx_dsr_flow = 3
index_of dsr_sensitivity = 4
index_of tx_continue_on_xoff = 5
index_of out_x = 6
index_of in_x = 7
index_of error_char = 8
index_of null = 9
index_of abort_on_error = 10

-- What the word of flags stands for.
pub record Fields : Type 0 where
  pub flags : Flag → Bool
  pub dtr_control : Faulty DtrControl
  pub rts_control : Faulty RtsControl

abbrev pub set_field : Setter → Fields → Fields
set_field (flag g v) a = record a { flags = λ f. if index_of f == index_of g then v else a.flags f }
set_field (dtr c) a = record a { dtr_control = some c }
set_field (rts c) a = record a { rts_control = some c }

abbrev pub set_fields : List Setter → Fields → Fields
set_fields [] a = a
set_fields (s ∷ ss) a = set_fields ss (set_field s a)

-- The two controls lie between the flags.
abbrev place : ℕ → ℕ
place i = if ltb i 4 then i else if ltb i 10 then i + 2 else 14

index_of-lt : (f : Flag) → index_of f < 11
index_of-lt binary = omega arith
index_of-lt parity = omega arith
index_of-lt outx_cts_flow = omega arith
index_of-lt outx_dsr_flow = omega arith
index_of-lt dsr_sensitivity = omega arith
index_of-lt tx_continue_on_xoff = omega arith
index_of-lt out_x = omega arith
index_of-lt in_x = omega arith
index_of-lt error_char = omega arith
index_of-lt null = omega arith
index_of-lt abort_on_error = omega arith

position_of-place : (f : Flag) → position_of f ≡ place (index_of f)
position_of-place binary = refl
position_of-place parity = refl
position_of-place outx_cts_flow = refl
position_of-place outx_dsr_flow = refl
position_of-place dsr_sensitivity = refl
position_of-place tx_continue_on_xoff = refl
position_of-place out_x = refl
position_of-place in_x = refl
position_of-place error_char = refl
position_of-place null = refl
position_of-place abort_on_error = refl

position_of-same : (f g : Flag) → (position_of f == position_of g) ≡ (index_of f == index_of g)
position_of-same f g =
    ground (arith, position_of-place f, position_of-place g, index_of-lt f, index_of-lt g)

-- Outside both controls.
position_of-apart :
    (f : Flag)
    → (position_of f < 15)
      × (position_of f ≢ 4)
      × (position_of f ≢ 5)
      × (position_of f ≢ 12)
      × (position_of f ≢ 13)
position_of-apart f = ground (arith, position_of-place f, index_of-lt f)

fields-same :
    {a b : Fields}
    → ((f : Flag) → a.flags f ≡ b.flags f)
    → a.dtr_control ≡ b.dtr_control
    → a.rts_control ≡ b.rts_control
    → a ≡ b
fields-same p q r = λ i. record { flags = λ f. p f i; dtr_control = q i; rts_control = r i }

module _ (codes : CommCodes) where
  abbrev pub fields_of : ℕ → Fields
  fields_of x = record {
    flags = λ f. get_f f x;
    dtr_control = get_dtr_control codes x;
    rts_control = get_rts_control codes x;
  }

  get_control-set_f :
      (g : Flag) (v : Bool) (x : ℕ)
      → (get_dtr_control codes (set_f g v x) ≡ get_dtr_control codes x)
        × (get_rts_control codes (set_f g v x) ≡ get_rts_control codes x)
  unfolding get_dtr_control get_rts_control
  get_control-set_f g v x =
      let (small, n4, n5, n12, n13) = position_of-apart g in
      (
        rw (get_control-set_flag 4 (position_of g) v x (omega arith) (omega arith) n4 n5) refl,
        rw (get_control-set_flag 12 (position_of g) v x (omega arith) (omega arith) n12 n13) refl,
      )

  get_f-set_control :
      (f : Flag) (d : DtrControl) (r : RtsControl) (x : ℕ)
      → (get_f f (set_dtr_control codes d x) ≡ get_f f x)
        × (get_f f (set_rts_control codes r x) ≡ get_f f x)
  unfolding set_dtr_control set_rts_control
  get_f-set_control f d r x =
      let (small, n4, n5, n12, n13) = position_of-apart f in
      (
        get_flag-set_control (position_of f) 4 (codes.dtr_code d) x (omega arith)
            (codes.dtr_code-lt d) (omega arith) n4 n5,
        get_flag-set_control (position_of f) 12 (codes.rts_code r) x (omega arith)
            (codes.rts_code-lt r) (omega arith) n12 n13,
      )

  apply-fields : (s : Setter) (x : ℕ) → fields_of (apply codes s x) ≡ set_field s (fields_of x)
  apply-fields (flag g v) x =
      fields-same
        (λ f.
          rw
            (
              get_flag-set_flag (position_of f) (position_of g) v x
                  (omega (arith, position_of-apart f)) (omega (arith, position_of-apart g)),
              position_of-same f g,
            )
            refl)
        (get_control-set_f g v x).0 (get_control-set_f g v x).1
  apply-fields (dtr d) x =
      let (same, rs, apart, ds) = controls-read_back codes d RtsControl.disable x in
      fields-same (λ f. (get_f-set_control f d RtsControl.disable x).0) same apart
  apply-fields (rts r) x =
      let (ds, same, rs, apart) = controls-read_back codes DtrControl.disable r x in
      fields-same (λ f. (get_f-set_control f DtrControl.disable r x).1) apart same

  -- The word of flags stands for thirteen fields of its own: after any calls of the setters, on any word,
  -- each getter of a flag reads what the last call for that flag set, and the getters of the DTR and of the
  -- RTS control what the last call for it set; what no call set reads as before.
  pub apply_all-fields :
      (ss : List Setter) (x : ℕ) → fields_of (apply_all codes ss x) ≡ set_fields ss (fields_of x)
  apply_all-fields [] x = refl
  apply_all-fields (s ∷ ss) x = rw (apply_all-fields ss (apply codes s x), apply-fields s x) refl
