-- ===== src/Runtime/Usb/Configure/Writes.antt =====
-- A sequence of the setters of crates/runtime/src/usb/mod.rs, and what it leaves to be read.
use msft.Runtime.Usb.{
  set_flag, get_flag, DtrControl, RtsControl, FlowControl, software, hardware, CommCodes,
}
use msft.Runtime.Usb.Flags.{get_flag-set_flag, get_flag-set_control, get_control-set_flag}
use msft.Runtime.Usb.Controls.{
  set_dtr_control, set_rts_control, get_dtr_control, get_rts_control, controls-read_back,
}
use msft.Runtime.Usb.Configure.{flow_flags, default_flags}
use msft.Runtime.Usb.Position
use msft.Prelude.{
  ℕ, ◌≡◌, Bool, true, false, ◌&&◌, not, Option, some, List, [], ◌∷◌, arith, refl, ◌==◌, ltb,
  if◌then◌else◌, ◌++◌, ◌∙◌, ap,
}

-- The setters that `configure` calls, as a list in the order of the calls.
pub data Write : Type 0 where
  flag : (position : ℕ) → Bool → Write
  dtr : DtrControl → Write
  rts : RtsControl → Write

abbrev pub common : List Write
common =
    flag Position.binary true
    ∷ flag Position.outx_dsr_flow false
    ∷ dtr DtrControl.enable
    ∷ flag Position.dsr_sensitivity false
    ∷ flag Position.error_char false
    ∷ flag Position.null false
    ∷ flag Position.abort_on_error false
    ∷ []

abbrev pub flow_writes : Bool → RtsControl → Bool → List Write
flow_writes cts control xon =
    flag Position.outx_cts_flow cts
    ∷ rts control
    ∷ flag Position.out_x xon
    ∷ flag Position.in_x xon
    ∷ []

abbrev pub all_writes : FlowControl → List Write
all_writes FlowControl.none = common ++ flow_writes false RtsControl.disable false
all_writes software = common ++ flow_writes false RtsControl.disable true
all_writes hardware = common ++ flow_writes true RtsControl.enable false

-- What a sequence of writes leaves in a flag and in the controls.
abbrev pub flag_after : ℕ → List Write → Bool → Bool
flag_after j [] b = b
flag_after j (flag k v ∷ ws) b = flag_after j ws (if j == k then v else b)
flag_after j (_ ∷ ws) b = flag_after j ws b

abbrev pub dtr_after : List Write → Option DtrControl → Option DtrControl
dtr_after [] c = c
dtr_after (dtr d ∷ ws) c = dtr_after ws (some d)
dtr_after (_ ∷ ws) c = dtr_after ws c

abbrev pub rts_after : List Write → Option RtsControl → Option RtsControl
rts_after [] c = c
rts_after (rts r ∷ ws) c = rts_after ws (some r)
rts_after (_ ∷ ws) c = rts_after ws c

-- A position that is a flag's, not a control's.
abbrev pub is_flag : ℕ → Bool
is_flag j = ltb j 32 && not (j == 4) && not (j == 5) && not (j == 12) && not (j == 13)

abbrev pub are_flags : List Write → Bool
are_flags [] = true
are_flags (flag k _ ∷ ws) = is_flag k && are_flags ws
are_flags (_ ∷ ws) = are_flags ws

module _ (codes : CommCodes) where
  abbrev pub write : Write → ℕ → ℕ
  write (flag k v) x = set_flag k v x
  write (dtr c) x = set_dtr_control codes c x
  write (rts c) x = set_rts_control codes c x

  abbrev pub writes : List Write → ℕ → ℕ
  writes [] x = x
  writes (w ∷ ws) x = writes ws (write w x)

  pub flags-writes :
      (flow : FlowControl) (x : ℕ)
      → flow_flags codes flow (default_flags codes x) ≡ writes (all_writes flow) x
  unfolding flow_flags default_flags
  flags-writes FlowControl.none x = refl
  flags-writes software x = refl
  flags-writes hardware x = refl

  flag_over_dtr :
      (j : ℕ) (c : DtrControl) (x : ℕ)
      → is_flag j ≡ true
      → get_flag j (set_dtr_control codes c x) ≡ get_flag j x
  unfolding set_dtr_control
  flag_over_dtr j c x h =
      get_flag-set_control j 4 (codes.dtr_code c) x (omega arith) (codes.dtr_code-lt c)
        (ground arith) (ground arith) (ground arith)

  flag_over_rts :
      (j : ℕ) (c : RtsControl) (x : ℕ)
      → is_flag j ≡ true
      → get_flag j (set_rts_control codes c x) ≡ get_flag j x
  unfolding set_rts_control
  flag_over_rts j c x h =
      get_flag-set_control j 12 (codes.rts_code c) x (omega arith) (codes.rts_code-lt c)
        (ground arith) (ground arith) (ground arith)

  dtr_over_flag :
      (k : ℕ) (v : Bool) (x : ℕ)
      → is_flag k ≡ true
      → get_dtr_control codes (set_flag k v x) ≡ get_dtr_control codes x
  unfolding get_dtr_control
  dtr_over_flag k v x h =
      rw (get_control-set_flag 4 k v x (omega arith) (ground arith) (ground arith) (ground arith))
        refl

  rts_over_flag :
      (k : ℕ) (v : Bool) (x : ℕ)
      → is_flag k ≡ true
      → get_rts_control codes (set_flag k v x) ≡ get_rts_control codes x
  unfolding get_rts_control
  rts_over_flag k v x h =
      rw (get_control-set_flag 12 k v x (omega arith) (ground arith) (ground arith) (ground arith))
        refl

  pub get_flag-writes :
      (j : ℕ) (ws : List Write) (x : ℕ)
      → is_flag j ≡ true
      → are_flags ws ≡ true
      → get_flag j (writes ws x) ≡ flag_after j ws (get_flag j x)
  get_flag-writes j [] x hj h = refl
  get_flag-writes j (flag k v ∷ ws) x hj h =
      get_flag-writes j ws (set_flag k v x) hj (ground arith)
      ∙ ap (flag_after j ws) (get_flag-set_flag j k v x (ground arith) (ground arith))
  get_flag-writes j (dtr c ∷ ws) x hj h =
      get_flag-writes j ws (set_dtr_control codes c x) hj h
      ∙ ap (flag_after j ws) (flag_over_dtr j c x hj)
  get_flag-writes j (rts c ∷ ws) x hj h =
      get_flag-writes j ws (set_rts_control codes c x) hj h
      ∙ ap (flag_after j ws) (flag_over_rts j c x hj)

  pub get_dtr-writes :
      (ws : List Write) (x : ℕ)
      → are_flags ws ≡ true
      → get_dtr_control codes (writes ws x) ≡ dtr_after ws (get_dtr_control codes x)
  get_dtr-writes [] x h = refl
  get_dtr-writes (flag k v ∷ ws) x h =
      get_dtr-writes ws (set_flag k v x) (ground arith)
      ∙ ap (dtr_after ws) (dtr_over_flag k v x (ground arith))
  get_dtr-writes (dtr c ∷ ws) x h =
      get_dtr-writes ws (set_dtr_control codes c x) h
      ∙ ap (dtr_after ws) (controls-read_back codes c RtsControl.disable x).0
  get_dtr-writes (rts c ∷ ws) x h =
      get_dtr-writes ws (set_rts_control codes c x) h
      ∙ ap (dtr_after ws) (controls-read_back codes DtrControl.enable c x).3

  pub get_rts-writes :
      (ws : List Write) (x : ℕ)
      → are_flags ws ≡ true
      → get_rts_control codes (writes ws x) ≡ rts_after ws (get_rts_control codes x)
  get_rts-writes [] x h = refl
  get_rts-writes (flag k v ∷ ws) x h =
      get_rts-writes ws (set_flag k v x) (ground arith)
      ∙ ap (rts_after ws) (rts_over_flag k v x (ground arith))
  get_rts-writes (dtr c ∷ ws) x h =
      get_rts-writes ws (set_dtr_control codes c x) h
      ∙ ap (rts_after ws) (controls-read_back codes c RtsControl.disable x).2
  get_rts-writes (rts c ∷ ws) x h =
      get_rts-writes ws (set_rts_control codes c x) h
      ∙ ap (rts_after ws) (controls-read_back codes DtrControl.enable c x).1
