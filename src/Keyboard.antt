-- ===== src/Keyboard.antt =====
-- The PS/2 keyboard driver, os/src/drivers/keyboard.c: scancode set 1 to key events.
pub mod Stream
mod Tests
use abel_os.Base.{
  ℕ, ◌+◌, ◌-◌, Bool, true, false, List, [], ◌∷◌, Option, none, some, leb, ◌==◌, if◌then◌else◌,
  get_or,
}
use abel_os.Keys.{
  Key, key_unknown, key_esc, key_1, key_2, key_3, key_4, key_5, key_6, key_7, key_8, key_9, key_0,
  key_layout_01, key_layout_02, key_del, key_tab, key_q, key_w, key_e, key_r, key_t, key_y, key_u,
  key_i, key_o, key_p, key_layout_03, key_layout_04, key_enter, key_l_ctrl, key_a, key_s, key_d,
  key_f, key_g, key_h, key_j, key_k, key_l, key_layout_05, key_layout_06, key_layout_07, key_l_shft,
  key_backslash, key_z, key_x, key_c, key_v, key_b, key_n, key_m, key_comma, key_dot, key_layout_08,
  key_r_shft, key_kp_star, key_l_alt, key_space, key_caps, key_f1, key_f2, key_f3, key_f4, key_f5,
  key_f6, key_f7, key_f8, key_f9, key_f10, key_numlock, key_scroll_lock, key_kp_7, key_kp_8,
  key_kp_9, key_kp_4, key_kp_5, key_kp_6, key_kp_1, key_kp_2, key_kp_3, key_kp_0, key_kp_dot,
  key_f11, key_f12, key_prev_track, key_next_track, key_kp_enter, key_r_ctrl, key_mute,
  key_calculator, key_play, key_stop, key_vol_down, key_vol_up, key_www_home, key_kp_slash,
  key_alt_gr, key_home, key_arrow_up, key_page_up, key_arrow_left, key_arrow_right, key_end,
  key_arrow_down, key_page_down, key_insert, key_supr, key_left_gui, key_right_gui, key_apps,
  key_power, key_sleep, key_wake, key_www_search, key_www_favs, key_www_refresh, key_www_stop,
  ket_www_forward, key_www_back, key_my_comp, key_email, key_media_select,
}
use abel_os.Input.{KeyInput, key_press, key_release, InputQueue, event_key_publish}

-- The two tables. C fills the rest of the 128 entries with 0, which is `key_unknown`.
pub scancode_to_key_value_s1 : List Key
scancode_to_key_value_s1 =
    key_unknown ∷ key_esc ∷ key_1 ∷ key_2 ∷ key_3 ∷ key_4 ∷ key_5 ∷ key_6 ∷ key_7 ∷ key_8 ∷ key_9
    ∷ key_0 ∷ key_layout_01 ∷ key_layout_02 ∷ key_del ∷ key_tab ∷ key_q ∷ key_w ∷ key_e ∷ key_r
    ∷ key_t ∷ key_y ∷ key_u ∷ key_i ∷ key_o ∷ key_p ∷ key_layout_03 ∷ key_layout_04 ∷ key_enter
    ∷ key_l_ctrl ∷ key_a ∷ key_s ∷ key_d ∷ key_f ∷ key_g ∷ key_h ∷ key_j ∷ key_k ∷ key_l
    ∷ key_layout_05 ∷ key_layout_06 ∷ key_layout_07 ∷ key_l_shft ∷ key_backslash ∷ key_z ∷ key_x
    ∷ key_c ∷ key_v ∷ key_b ∷ key_n ∷ key_m ∷ key_comma ∷ key_dot ∷ key_layout_08 ∷ key_r_shft
    ∷ key_kp_star ∷ key_l_alt ∷ key_space ∷ key_caps ∷ key_f1 ∷ key_f2 ∷ key_f3 ∷ key_f4 ∷ key_f5
    ∷ key_f6 ∷ key_f7 ∷ key_f8 ∷ key_f9 ∷ key_f10 ∷ key_numlock ∷ key_scroll_lock ∷ key_kp_7
    ∷ key_kp_8 ∷ key_kp_9 ∷ key_kp_4 ∷ key_kp_5 ∷ key_kp_6 ∷ key_kp_1 ∷ key_kp_2 ∷ key_kp_3
    ∷ key_kp_0 ∷ key_kp_dot ∷ key_unknown ∷ key_unknown ∷ key_unknown ∷ key_unknown ∷ key_f11
    ∷ key_f12 ∷ key_unknown ∷ key_unknown ∷ key_unknown ∷ key_unknown ∷ []

pub extended_scancode_to_ascii_s1 : List Key
extended_scancode_to_ascii_s1 =
    key_unknown ∷ key_unknown ∷ key_unknown ∷ key_unknown ∷ key_unknown ∷ key_unknown ∷ key_unknown
    ∷ key_unknown ∷ key_unknown ∷ key_unknown ∷ key_unknown ∷ key_unknown ∷ key_unknown
    ∷ key_unknown ∷ key_unknown ∷ key_unknown ∷ key_prev_track ∷ key_unknown ∷ key_unknown
    ∷ key_unknown ∷ key_unknown ∷ key_unknown ∷ key_unknown ∷ key_unknown ∷ key_unknown
    ∷ key_next_track ∷ key_unknown ∷ key_unknown ∷ key_kp_enter ∷ key_r_ctrl ∷ key_unknown
    ∷ key_unknown ∷ key_mute ∷ key_calculator ∷ key_play ∷ key_unknown ∷ key_stop ∷ key_unknown
    ∷ key_unknown ∷ key_unknown ∷ key_unknown ∷ key_unknown ∷ key_unknown ∷ key_unknown
    ∷ key_unknown ∷ key_unknown ∷ key_vol_down ∷ key_unknown ∷ key_vol_up ∷ key_unknown
    ∷ key_www_home ∷ key_unknown ∷ key_unknown ∷ key_kp_slash ∷ key_unknown ∷ key_unknown
    ∷ key_alt_gr ∷ key_unknown ∷ key_unknown ∷ key_unknown ∷ key_unknown ∷ key_unknown ∷ key_unknown
    ∷ key_unknown ∷ key_unknown ∷ key_unknown ∷ key_unknown ∷ key_unknown ∷ key_unknown
    ∷ key_unknown ∷ key_unknown ∷ key_home ∷ key_arrow_up ∷ key_page_up ∷ key_unknown
    ∷ key_arrow_left ∷ key_unknown ∷ key_arrow_right ∷ key_unknown ∷ key_end ∷ key_arrow_down
    ∷ key_page_down ∷ key_insert ∷ key_supr ∷ key_unknown ∷ key_unknown ∷ key_unknown ∷ key_unknown
    ∷ key_unknown ∷ key_unknown ∷ key_unknown ∷ key_left_gui ∷ key_right_gui ∷ key_apps ∷ key_power
    ∷ key_sleep ∷ key_unknown ∷ key_unknown ∷ key_unknown ∷ key_wake ∷ key_unknown ∷ key_www_search
    ∷ key_www_favs ∷ key_www_refresh ∷ key_www_stop ∷ ket_www_forward ∷ key_www_back ∷ key_my_comp
    ∷ key_email ∷ key_media_select ∷ []

abbrev pub extended_start : ℕ
extended_start = 0xe0

-- `table[scancode]` with the kind of event, as both branches of `ps2_keyboard_parse` read it.
abbrev pub read_table : List Key → ℕ → Key × KeyInput
read_table table scancode =
    if leb 0x80 scancode
    then (get_or table (scancode - 0x80) key_unknown, key_release)
    else (get_or table scancode key_unknown, key_press)

-- The new value of `extended`, the result, and what is stored through `key` and `type`.
pub record Parsed : Type 0 where
  pub extended : ℕ
  pub rts : ℕ
  pub out : Option (Key × KeyInput)

pub parse : ℕ → ℕ → Parsed
parse extended scancode =
    if scancode == extended_start
    then record { extended = 1; rts = 0; out = none }
    else if extended == 0
    then record { extended = 0; rts = 1; out = some (read_table scancode_to_key_value_s1 scancode) }
    else if extended == 1
    then record {
      extended = 0;
      rts = 1;
      out = some (read_table extended_scancode_to_ascii_s1 scancode);
    }
    else record { extended = extended; rts = 1; out = none }

-- The driver's state beside the queue that it publishes to.
pub record Keyboard : Type 0 where
  pub extended : ℕ
  pub queue : InputQueue

-- The handler's last step. Nothing is published if `key` was never stored, which no reachable
-- value of `extended` allows.
pub publish : ℕ → InputQueue → Option (Key × KeyInput) → Keyboard × Bool
publish extended q none = (record { extended = extended; queue = q }, false)
publish extended q (some (key, kind)) =
    let (q', full) = event_key_publish q key kind in
    (record { extended = extended; queue = q' }, full)

-- `ps2_keyboard_irq_handler`, with the byte that `ps2_read_data` read from the port. The result is
-- whether the queue was full.
pub irq_handler : Keyboard → ℕ → Keyboard × Bool
irq_handler k scancode =
    let p = parse k.extended scancode in
    if p.rts == 1
    then publish p.extended k.queue p.out
    else (record { extended = p.extended; queue = k.queue }, false)
