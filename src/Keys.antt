-- ===== src/Keys.antt =====
-- The keys of os/include/kernel/input/types.h and their names, os/src/kernel/input/types.c.
pub mod Names
mod Tests
use Prim.Native.String.{String}
use abel_os.Base.{List, [], ◌∷◌, Option, none, some}

-- `enum keyboard_input_key`, in the source's order and spelling.
pub data Key : Type 0 where
  key_unknown key_esc key_1 key_2 key_3 key_4 key_5 key_6 key_7 key_8 key_9 key_0 key_layout_01 :
      Key
  key_layout_02 key_del key_tab key_q key_w key_e key_r key_t key_y key_u key_i key_o key_p : Key
  key_layout_03 key_layout_04 key_enter key_l_ctrl key_a key_s key_d key_f key_g key_h key_j : Key
  key_k key_l key_layout_05 key_layout_06 key_layout_07 key_l_shft key_backslash key_z key_x : Key
  key_c key_v key_b key_n key_m key_comma key_dot key_layout_08 key_r_shft key_kp_star key_l_alt :
      Key
  key_space key_caps key_f1 key_f2 key_f3 key_f4 key_f5 key_f6 key_f7 key_f8 key_f9 key_f10 : Key
  key_numlock key_scroll_lock key_kp_7 key_kp_8 key_kp_9 key_kp_4 key_kp_5 key_kp_6 key_kp_1 : Key
  key_kp_2 key_kp_3 key_kp_0 key_kp_dot key_f11 key_f12 key_prev_track key_next_track : Key
  key_kp_enter key_r_ctrl key_mute key_calculator key_play key_stop key_vol_down key_vol_up : Key
  key_www_home key_kp_slash key_alt_gr key_home key_arrow_up key_page_up key_arrow_left : Key
  key_arrow_right key_end key_arrow_down key_page_down key_insert key_supr key_left_gui : Key
  key_right_gui key_apps key_power key_sleep key_wake key_www_search key_www_favs key_www_refresh :
      Key
  key_www_stop ket_www_forward key_www_back key_my_comp key_email key_media_select : Key

-- `none` is a value that no enumerator has.
pub get_key_name : Option Key → String
get_key_name none = "UNKNOWN_KEY"
get_key_name (some key_unknown) = "KEY_UNKNOWN"
get_key_name (some key_esc) = "KEY_ESC"
get_key_name (some key_1) = "KEY_1"
get_key_name (some key_2) = "KEY_2"
get_key_name (some key_3) = "KEY_3"
get_key_name (some key_4) = "KEY_4"
get_key_name (some key_5) = "KEY_5"
get_key_name (some key_6) = "KEY_6"
get_key_name (some key_7) = "KEY_7"
get_key_name (some key_8) = "KEY_8"
get_key_name (some key_9) = "KEY_9"
get_key_name (some key_0) = "KEY_0"
get_key_name (some key_layout_01) = "KEY_LAYOUT_01"
get_key_name (some key_layout_02) = "KEY_LAYOUT_02"
get_key_name (some key_del) = "KEY_DEL"
get_key_name (some key_tab) = "KEY_TAB"
get_key_name (some key_q) = "KEY_Q"
get_key_name (some key_w) = "KEY_W"
get_key_name (some key_e) = "KEY_E"
get_key_name (some key_r) = "KEY_R"
get_key_name (some key_t) = "KEY_T"
get_key_name (some key_y) = "KEY_Y"
get_key_name (some key_u) = "KEY_U"
get_key_name (some key_i) = "KEY_I"
get_key_name (some key_o) = "KEY_O"
get_key_name (some key_p) = "KEY_P"
get_key_name (some key_layout_03) = "KEY_LAYOUT_03"
get_key_name (some key_layout_04) = "KEY_LAYOUT_04"
get_key_name (some key_enter) = "KEY_ENTER"
get_key_name (some key_l_ctrl) = "KEY_L_CTRL"
get_key_name (some key_a) = "KEY_A"
get_key_name (some key_s) = "KEY_S"
get_key_name (some key_d) = "KEY_D"
get_key_name (some key_f) = "KEY_F"
get_key_name (some key_g) = "KEY_G"
get_key_name (some key_h) = "KEY_H"
get_key_name (some key_j) = "KEY_J"
get_key_name (some key_k) = "KEY_K"
get_key_name (some key_l) = "KEY_L"
get_key_name (some key_layout_05) = "KEY_LAYOUT_05"
get_key_name (some key_layout_06) = "KEY_LAYOUT_06"
get_key_name (some key_layout_07) = "KEY_LAYOUT_07"
get_key_name (some key_l_shft) = "KEY_L_SHFT"
get_key_name (some key_backslash) = "KEY_BACKSLASH"
get_key_name (some key_z) = "KEY_Z"
get_key_name (some key_x) = "KEY_X"
get_key_name (some key_c) = "KEY_C"
get_key_name (some key_v) = "KEY_V"
get_key_name (some key_b) = "KEY_B"
get_key_name (some key_n) = "KEY_N"
get_key_name (some key_m) = "KEY_M"
get_key_name (some key_comma) = "KEY_COMMA"
get_key_name (some key_dot) = "KEY_DOT"
get_key_name (some key_layout_08) = "KEY_LAYOUT_08"
get_key_name (some key_r_shft) = "KEY_R_SHFT"
get_key_name (some key_kp_star) = "KEY_KP_STAR"
get_key_name (some key_l_alt) = "KEY_L_ALT"
get_key_name (some key_space) = "KEY_SPACE"
get_key_name (some key_caps) = "KEY_CAPS"
get_key_name (some key_f1) = "KEY_F1"
get_key_name (some key_f2) = "KEY_F2"
get_key_name (some key_f3) = "KEY_F3"
get_key_name (some key_f4) = "KEY_F4"
get_key_name (some key_f5) = "KEY_F5"
get_key_name (some key_f6) = "KEY_F6"
get_key_name (some key_f7) = "KEY_F7"
get_key_name (some key_f8) = "KEY_F8"
get_key_name (some key_f9) = "KEY_F9"
get_key_name (some key_f10) = "KEY_F10"
get_key_name (some key_numlock) = "KEY_NUMLOCK"
get_key_name (some key_scroll_lock) = "KEY_SCROLL_LOCK"
get_key_name (some key_kp_7) = "KEY_KP_7"
get_key_name (some key_kp_8) = "KEY_KP_8"
get_key_name (some key_kp_9) = "KEY_KP_9"
get_key_name (some key_kp_4) = "KEY_KP_4"
get_key_name (some key_kp_5) = "KEY_KP_5"
get_key_name (some key_kp_6) = "KEY_KP_6"
get_key_name (some key_kp_1) = "KEY_KP_1"
get_key_name (some key_kp_2) = "KEY_KP_2"
get_key_name (some key_kp_3) = "KEY_KP_3"
get_key_name (some key_kp_0) = "KEY_KP_0"
get_key_name (some key_kp_dot) = "KEY_KP_DOT"
get_key_name (some key_f11) = "KEY_F11"
get_key_name (some key_f12) = "KEY_F12"
get_key_name (some key_prev_track) = "KEY_PREV_TRACK"
get_key_name (some key_next_track) = "KEY_NEXT_TRACK"
get_key_name (some key_kp_enter) = "KEY_KP_ENTER"
get_key_name (some key_r_ctrl) = "KEY_R_CTRL"
get_key_name (some key_mute) = "KEY_MUTE"
get_key_name (some key_calculator) = "KEY_CALCULATOR"
get_key_name (some key_play) = "KEY_PLAY"
get_key_name (some key_stop) = "KEY_STOP"
get_key_name (some key_vol_down) = "KEY_VOL_DOWN"
get_key_name (some key_vol_up) = "KEY_VOL_UP"
get_key_name (some key_www_home) = "KEY_WWW_HOME"
get_key_name (some key_kp_slash) = "KEY_KP_SLASH"
get_key_name (some key_alt_gr) = "KEY_ALT_GR"
get_key_name (some key_home) = "KEY_HOME"
get_key_name (some key_arrow_up) = "KEY_ARROW_UP"
get_key_name (some key_page_up) = "KEY_PAGE_UP"
get_key_name (some key_arrow_left) = "KEY_ARROW_LEFT"
get_key_name (some key_arrow_right) = "KEY_ARROW_RIGHT"
get_key_name (some key_end) = "KEY_END"
get_key_name (some key_arrow_down) = "KEY_ARROW_DOWN"
get_key_name (some key_page_down) = "KEY_PAGE_DOWN"
get_key_name (some key_insert) = "KEY_INSERT"
get_key_name (some key_supr) = "KEY_SUPR"
get_key_name (some key_left_gui) = "KEY_LEFT_GUI"
get_key_name (some key_right_gui) = "KEY_RIGHT_GUI"
get_key_name (some key_apps) = "KEY_APPS"
get_key_name (some key_power) = "KEY_POWER"
get_key_name (some key_sleep) = "KEY_SLEEP"
get_key_name (some key_wake) = "KEY_WAKE"
get_key_name (some key_www_search) = "KEY_WWW_SEARCH"
get_key_name (some key_www_favs) = "KEY_WWW_FAVS"
get_key_name (some key_www_refresh) = "KEY_WWW_REFRESH"
get_key_name (some key_www_stop) = "KEY_WWW_STOP"
get_key_name (some ket_www_forward) = "KEY_WWW_FORWARD"
get_key_name (some key_www_back) = "KEY_WWW_BACK"
get_key_name (some key_my_comp) = "KEY_MY_COMP"
get_key_name (some key_email) = "KEY_EMAIL"
get_key_name (some key_media_select) = "KEY_MEDIA_SELECT"
