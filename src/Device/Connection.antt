-- ===== src/Device/Connection.antt =====
-- The physical connection of a device and its features (src/tas_client/tas_utils.h and tas_utils.cpp).
use tas_client_api.Prelude.{
  ℕ, ◌-◌, ◌≡◌, refl, Bool, true, false, ◌||◌, Option, none, some, [], ◌∷◌, ◌==◌, ◌!=◌, ltb, bit_and,
  String, if◌then◌else◌, if-lem, arith,
}
use Prim.Native.String
use Prim.Native.String.{◌++◌}
use tas_client_api.Device.Family.{is_one_of, switch}
use tas_client_api.Device.Cases.{every-one_of}

-- `tas_dev_con_phys_et`
abbrev pub phys_unknown : ℕ
phys_unknown = 0

abbrev pub phys_jtag : ℕ
phys_jtag = 0x01

abbrev pub phys_dap : ℕ
phys_dap = 0x10

abbrev pub phys_dap_dap : ℕ
phys_dap_dap = 0x11

abbrev pub phys_dap_dxcpl : ℕ
phys_dap_dxcpl = 0x13

abbrev pub phys_dap_dxcm : ℕ
phys_dap_dxcm = 0x14

abbrev pub phys_swd : ℕ
phys_swd = 0x20

abbrev pub phys_eth : ℕ
phys_eth = 0x80

unfoldable pub is_acc_hw : ℕ → Bool
unfolding is_one_of
is_acc_hw =
    is_one_of (phys_jtag ∷ phys_dap ∷ phys_dap_dap ∷ phys_dap_dxcpl ∷ phys_dap_dxcm ∷ phys_swd ∷ [])

unfoldable pub supports_jtag_scans : ℕ → Bool
unfolding is_one_of
supports_jtag_scans = is_one_of (phys_jtag ∷ phys_dap ∷ phys_dap_dap ∷ phys_dap_dxcpl ∷ [])

unfoldable pub is_dap_variant : ℕ → Bool
unfolding is_one_of
is_dap_variant = is_one_of (phys_dap ∷ phys_dap_dap ∷ phys_dap_dxcpl ∷ phys_dap_dxcm ∷ [])

unfoldable pub get_dev_con_phys_str : ℕ → String
unfolding switch
get_dev_con_phys_str =
    switch
      ((phys_unknown, "UNKNOWN")
        ∷ (phys_jtag, "JTAG")
        ∷ (phys_dap, "DAPx")
        ∷ (phys_dap_dap, "DAP")
        ∷ (phys_dap_dxcpl, "DXCPL")
        ∷ (phys_dap_dxcm, "DXCM")
        ∷ (phys_swd, "SWD")
        ∷ (phys_eth, "ETH")
        ∷ [])
      "UNKNOWN"

unfoldable pub get_client_type_str : ℕ → String
unfolding switch
get_client_type_str = switch ((1, "ClientRw") ∷ (2, "ClientChl") ∷ (3, "ClientTrc") ∷ []) "UNKNOWN"

-- The two parts of the text of the features, by their bits.
unfoldable pub reset_str : ℕ → String
reset_str bits =
    if bits == 0
    then ""
    else if bits == 1
    then "reset, "
    else if bits == 3
    then "reset|HAR, "
    else "reset?, "

unfoldable pub unlock_str : ℕ → String
unlock_str bits =
    if bits == 0
    then ""
    else if bits == 0x10
    then "unlocking, "
    else if bits == 0x30
    then "unlocking|CNR, "
    else "unlock?, "

-- The last two characters are cut off: none where the end of the text is written before the buffer.
unfoldable pub cut_end : String → Option String
cut_end s = if ltb (String.len s) 2 then none else some (String.slice s 0 (String.len s - 2))

unfoldable pub get_dev_con_feat_str : ℕ → Option String
unfolding reset_str unlock_str cut_end
get_dev_con_feat_str dev_con_feat =
    if dev_con_feat == 0
    then some "None"
    else cut_end (reset_str (bit_and dev_con_feat 0x03) ++ unlock_str (bit_and dev_con_feat 0x30))

abbrev pub is_text : Option String → Bool
is_text none = false
is_text (some s) = true

unlock_str-is_text :
    (r : String) (b : Bool) (bits : ℕ)
    → is_text (cut_end (r ++ "")) ≡ b
    → is_text (cut_end (r ++ "unlocking, ")) ≡ true
    → is_text (cut_end (r ++ "unlocking|CNR, ")) ≡ true
    → is_text (cut_end (r ++ "unlock?, ")) ≡ true
    → is_text (cut_end (r ++ unlock_str bits)) ≡ (bits != 0 || b)
unfolding unlock_str
unlock_str-is_text r b bits h0 h1 h2 h3 =
    if-lem T (bits == 0) (λ z. let none_set : (bits != 0) ≡ false = ground arith in rw none_set h0)
      (λ z.
        let set : (bits != 0) ≡ true = ground arith in
        if-lem T (bits == 0x10) (λ e. rw set h1)
          (λ e. if-lem T (bits == 0x30) (λ e'. rw set h2) (λ e'. rw set h3)))
  where
    T : String → Type 0
    T u = is_text (cut_end (r ++ u)) ≡ (bits != 0 || b)

-- The text of features is cut within the buffer exactly if there are none, or one of those of the
-- reset or of the unlocking is among them.
pub get_dev_con_feat_str-is_text :
    (f : ℕ)
    → is_text (get_dev_con_feat_str f) ≡ (f == 0 || (bit_and f 0x30 != 0 || bit_and f 0x03 != 0))
unfolding get_dev_con_feat_str reset_str cut_end
get_dev_con_feat_str-is_text f =
    if-lem (λ (o : Option String). is_text o ≡ (f == 0 || (bit_and f 0x30 != 0 || r != 0))) (f == 0)
      (λ z. rw z refl)
      (λ z. rw z (
        if-lem T (r == 0)
          (λ e.
            let none_set : (r != 0) ≡ false = ground arith in
            rw none_set (unlock_str-is_text "" false (bit_and f 0x30) refl refl refl refl))
          (λ e.
            let set : (r != 0) ≡ true = ground arith in
            if-lem T (r == 1)
              (λ e1.
                rw set (unlock_str-is_text "reset, " true (bit_and f 0x30) refl refl refl refl))
              (λ e1.
                if-lem T (r == 3)
                  (λ e3.
                    rw set
                      (unlock_str-is_text "reset|HAR, " true (bit_and f 0x30) refl refl refl refl))
                  (λ e3.
                    rw set
                      (unlock_str-is_text "reset?, " true (bit_and f 0x30) refl refl refl refl))))))
  where
    r : ℕ
    r = bit_and f 0x03

    T : String → Type 0
    T s = is_text (cut_end (s ++ unlock_str (bit_and f 0x30))) ≡ (bit_and f 0x30 != 0 || r != 0)

-- Whatever supports JTAG scans, or is a variant of DAP, is an access hardware.
pub supports_jtag_scans-is_acc_hw : (p : ℕ) → supports_jtag_scans p ≡ true → is_acc_hw p ≡ true
unfolding supports_jtag_scans is_acc_hw is_one_of
supports_jtag_scans-is_acc_hw p h =
    every-one_of is_acc_hw (phys_jtag ∷ phys_dap ∷ phys_dap_dap ∷ phys_dap_dxcpl ∷ []) p refl h

pub is_dap_variant-is_acc_hw : (p : ℕ) → is_dap_variant p ≡ true → is_acc_hw p ≡ true
unfolding is_dap_variant is_acc_hw is_one_of
is_dap_variant-is_acc_hw p h =
    every-one_of is_acc_hw (phys_dap ∷ phys_dap_dap ∷ phys_dap_dxcpl ∷ phys_dap_dxcm ∷ []) p refl h
