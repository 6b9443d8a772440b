-- ===== src/Keys/Names.antt =====
-- The names of `get_key_name`, and a search for the key of a name.
use Prim.Native.String.{String}
use text.Mathlib.Text.{◌==◌ as str_eq}
use abel_os.Base.{◌≡◌, refl, ap, ◌∙◌, sym, List, [], ◌∷◌, Option, none, some, if◌then◌else◌}
use abel_os.Keys.{
  Key, get_key_name, key_unknown, key_esc, key_1, key_2, key_3, key_4, key_5, key_6, key_7, key_8,
  key_9, key_0, key_layout_01, key_layout_02, key_del, key_tab, key_q, key_w, key_e, key_r, key_t,
  key_y, key_u, key_i, key_o, key_p, key_layout_03, key_layout_04, key_enter, key_l_ctrl, key_a,
  key_s, key_d, key_f, key_g, key_h, key_j, key_k, key_l, key_layout_05, key_layout_06,
  key_layout_07, key_l_shft, key_backslash, key_z, key_x, key_c, key_v, key_b, key_n, key_m,
  key_comma, key_dot, key_layout_08, key_r_shft, key_kp_star, key_l_alt, key_space, key_caps,
  key_f1, key_f2, key_f3, key_f4, key_f5, key_f6, key_f7, key_f8, key_f9, key_f10, key_numlock,
  key_scroll_lock, key_kp_7, key_kp_8, key_kp_9, key_kp_4, key_kp_5, key_kp_6, key_kp_1, key_kp_2,
  key_kp_3, key_kp_0, key_kp_dot, key_f11, key_f12, key_prev_track, key_next_track, key_kp_enter,
  key_r_ctrl, key_mute, key_calculator, key_play, key_stop, key_vol_down, key_vol_up, key_www_home,
  key_kp_slash, key_alt_gr, key_home, key_arrow_up, key_page_up, key_arrow_left, key_arrow_right,
  key_end, key_arrow_down, key_page_down, key_insert, key_supr, key_left_gui, key_right_gui,
  key_apps, key_power, key_sleep, key_wake, key_www_search, key_www_favs, key_www_refresh,
  key_www_stop, ket_www_forward, key_www_back, key_my_comp, key_email, key_media_select,
}

-- Every enumerator, in order.
abbrev all_keys : List Key
all_keys =
    key_unknown ∷ key_esc ∷ key_1 ∷ key_2 ∷ key_3 ∷ key_4 ∷ key_5 ∷ key_6 ∷ key_7 ∷ key_8 ∷ key_9
    ∷ key_0 ∷ key_layout_01 ∷ key_layout_02 ∷ key_del ∷ key_tab ∷ key_q ∷ key_w ∷ key_e ∷ key_r
    ∷ key_t ∷ key_y ∷ key_u ∷ key_i ∷ key_o ∷ key_p ∷ key_layout_03 ∷ key_layout_04 ∷ key_enter
    ∷ key_l_ctrl ∷ key_a ∷ key_s ∷ key_d ∷ key_f ∷ key_g ∷ key_h ∷ key_j ∷ key_k ∷ key_l
    ∷ key_layout_05 ∷ key_layout_06 ∷ key_layout_07 ∷ key_l_shft ∷ key_backslash ∷ key_z ∷ key_x
    ∷ key_c ∷ key_v ∷ key_b ∷ key_n ∷ key_m ∷ key_comma ∷ key_dot ∷ key_layout_08 ∷ key_r_shft
    ∷ key_kp_star ∷ key_l_alt ∷ key_space ∷ key_caps ∷ key_f1 ∷ key_f2 ∷ key_f3 ∷ key_f4 ∷ key_f5
    ∷ key_f6 ∷ key_f7 ∷ key_f8 ∷ key_f9 ∷ key_f10 ∷ key_numlock ∷ key_scroll_lock ∷ key_kp_7
    ∷ key_kp_8 ∷ key_kp_9 ∷ key_kp_4 ∷ key_kp_5 ∷ key_kp_6 ∷ key_kp_1 ∷ key_kp_2 ∷ key_kp_3
    ∷ key_kp_0 ∷ key_kp_dot ∷ key_f11 ∷ key_f12 ∷ key_prev_track ∷ key_next_track ∷ key_kp_enter
    ∷ key_r_ctrl ∷ key_mute ∷ key_calculator ∷ key_play ∷ key_stop ∷ key_vol_down ∷ key_vol_up
    ∷ key_www_home ∷ key_kp_slash ∷ key_alt_gr ∷ key_home ∷ key_arrow_up ∷ key_page_up
    ∷ key_arrow_left ∷ key_arrow_right ∷ key_end ∷ key_arrow_down ∷ key_page_down ∷ key_insert
    ∷ key_supr ∷ key_left_gui ∷ key_right_gui ∷ key_apps ∷ key_power ∷ key_sleep ∷ key_wake
    ∷ key_www_search ∷ key_www_favs ∷ key_www_refresh ∷ key_www_stop ∷ ket_www_forward
    ∷ key_www_back ∷ key_my_comp ∷ key_email ∷ key_media_select ∷ []

-- The first key of the list that has the name.
find_key : List Key → String → Option Key
find_key [] name = none
find_key (k ∷ ks) name =
    let rest = find_key ks name in if str_eq (get_key_name (some k)) name then some k else rest

find_key-get_key_name : (k : Option Key) → find_key all_keys (get_key_name k) ≡ k
unfolding find_key get_key_name
find_key-get_key_name none = refl
find_key-get_key_name (some key_unknown) = refl
find_key-get_key_name (some key_esc) = refl
find_key-get_key_name (some key_1) = refl
find_key-get_key_name (some key_2) = refl
find_key-get_key_name (some key_3) = refl
find_key-get_key_name (some key_4) = refl
find_key-get_key_name (some key_5) = refl
find_key-get_key_name (some key_6) = refl
find_key-get_key_name (some key_7) = refl
find_key-get_key_name (some key_8) = refl
find_key-get_key_name (some key_9) = refl
find_key-get_key_name (some key_0) = refl
find_key-get_key_name (some key_layout_01) = refl
find_key-get_key_name (some key_layout_02) = refl
find_key-get_key_name (some key_del) = refl
find_key-get_key_name (some key_tab) = refl
find_key-get_key_name (some key_q) = refl
find_key-get_key_name (some key_w) = refl
find_key-get_key_name (some key_e) = refl
find_key-get_key_name (some key_r) = refl
find_key-get_key_name (some key_t) = refl
find_key-get_key_name (some key_y) = refl
find_key-get_key_name (some key_u) = refl
find_key-get_key_name (some key_i) = refl
find_key-get_key_name (some key_o) = refl
find_key-get_key_name (some key_p) = refl
find_key-get_key_name (some key_layout_03) = refl
find_key-get_key_name (some key_layout_04) = refl
find_key-get_key_name (some key_enter) = refl
find_key-get_key_name (some key_l_ctrl) = refl
find_key-get_key_name (some key_a) = refl
find_key-get_key_name (some key_s) = refl
find_key-get_key_name (some key_d) = refl
find_key-get_key_name (some key_f) = refl
find_key-get_key_name (some key_g) = refl
find_key-get_key_name (some key_h) = refl
find_key-get_key_name (some key_j) = refl
find_key-get_key_name (some key_k) = refl
find_key-get_key_name (some key_l) = refl
find_key-get_key_name (some key_layout_05) = refl
find_key-get_key_name (some key_layout_06) = refl
find_key-get_key_name (some key_layout_07) = refl
find_key-get_key_name (some key_l_shft) = refl
find_key-get_key_name (some key_backslash) = refl
find_key-get_key_name (some key_z) = refl
find_key-get_key_name (some key_x) = refl
find_key-get_key_name (some key_c) = refl
find_key-get_key_name (some key_v) = refl
find_key-get_key_name (some key_b) = refl
find_key-get_key_name (some key_n) = refl
find_key-get_key_name (some key_m) = refl
find_key-get_key_name (some key_comma) = refl
find_key-get_key_name (some key_dot) = refl
find_key-get_key_name (some key_layout_08) = refl
find_key-get_key_name (some key_r_shft) = refl
find_key-get_key_name (some key_kp_star) = refl
find_key-get_key_name (some key_l_alt) = refl
find_key-get_key_name (some key_space) = refl
find_key-get_key_name (some key_caps) = refl
find_key-get_key_name (some key_f1) = refl
find_key-get_key_name (some key_f2) = refl
find_key-get_key_name (some key_f3) = refl
find_key-get_key_name (some key_f4) = refl
find_key-get_key_name (some key_f5) = refl
find_key-get_key_name (some key_f6) = refl
find_key-get_key_name (some key_f7) = refl
find_key-get_key_name (some key_f8) = refl
find_key-get_key_name (some key_f9) = refl
find_key-get_key_name (some key_f10) = refl
find_key-get_key_name (some key_numlock) = refl
find_key-get_key_name (some key_scroll_lock) = refl
find_key-get_key_name (some key_kp_7) = refl
find_key-get_key_name (some key_kp_8) = refl
find_key-get_key_name (some key_kp_9) = refl
find_key-get_key_name (some key_kp_4) = refl
find_key-get_key_name (some key_kp_5) = refl
find_key-get_key_name (some key_kp_6) = refl
find_key-get_key_name (some key_kp_1) = refl
find_key-get_key_name (some key_kp_2) = refl
find_key-get_key_name (some key_kp_3) = refl
find_key-get_key_name (some key_kp_0) = refl
find_key-get_key_name (some key_kp_dot) = refl
find_key-get_key_name (some key_f11) = refl
find_key-get_key_name (some key_f12) = refl
find_key-get_key_name (some key_prev_track) = refl
find_key-get_key_name (some key_next_track) = refl
find_key-get_key_name (some key_kp_enter) = refl
find_key-get_key_name (some key_r_ctrl) = refl
find_key-get_key_name (some key_mute) = refl
find_key-get_key_name (some key_calculator) = refl
find_key-get_key_name (some key_play) = refl
find_key-get_key_name (some key_stop) = refl
find_key-get_key_name (some key_vol_down) = refl
find_key-get_key_name (some key_vol_up) = refl
find_key-get_key_name (some key_www_home) = refl
find_key-get_key_name (some key_kp_slash) = refl
find_key-get_key_name (some key_alt_gr) = refl
find_key-get_key_name (some key_home) = refl
find_key-get_key_name (some key_arrow_up) = refl
find_key-get_key_name (some key_page_up) = refl
find_key-get_key_name (some key_arrow_left) = refl
find_key-get_key_name (some key_arrow_right) = refl
find_key-get_key_name (some key_end) = refl
find_key-get_key_name (some key_arrow_down) = refl
find_key-get_key_name (some key_page_down) = refl
find_key-get_key_name (some key_insert) = refl
find_key-get_key_name (some key_supr) = refl
find_key-get_key_name (some key_left_gui) = refl
find_key-get_key_name (some key_right_gui) = refl
find_key-get_key_name (some key_apps) = refl
find_key-get_key_name (some key_power) = refl
find_key-get_key_name (some key_sleep) = refl
find_key-get_key_name (some key_wake) = refl
find_key-get_key_name (some key_www_search) = refl
find_key-get_key_name (some key_www_favs) = refl
find_key-get_key_name (some key_www_refresh) = refl
find_key-get_key_name (some key_www_stop) = refl
find_key-get_key_name (some ket_www_forward) = refl
find_key-get_key_name (some key_www_back) = refl
find_key-get_key_name (some key_my_comp) = refl
find_key-get_key_name (some key_email) = refl
find_key-get_key_name (some key_media_select) = refl

-- Two values with the same name are the same key: no name is used twice, and none is the name of
-- an unknown value.
pub get_key_name-injective : (a b : Option Key) → get_key_name a ≡ get_key_name b → a ≡ b
get_key_name-injective a b h =
    sym (find_key-get_key_name a) ∙ ap (find_key all_keys) h ∙ find_key-get_key_name b
