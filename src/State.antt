-- ===== src/State.antt =====
-- src/state.rs: the records that the settings, the floods and the authorisation checks keep.
use ircbot_rs.Prelude.Int.{ℤ, pos}
use ircbot_rs.Prelude.{ℕ, Bool, false, Option, none, List, [], replicate}
use ircbot_rs.Cstr.{Bytes, codes}
use ircbot_rs.Queue.{Output}

pub data CsetId : Type 0 where
  enforce_modes bitch protect_ops revenge stop_net_hack enforce_bans dynamic_bans : CsetId
  dont_kick_ops cycle dynamic_limit ban_time ban_type ban_idle limit_gap limit_delay : CsetId
  ignore_time : CsetId

abbrev pub cs_count : ℕ
cs_count = 16

-- the discriminant
abbrev pub cset_index : CsetId → ℕ
cset_index enforce_modes = 0
cset_index bitch = 1
cset_index protect_ops = 2
cset_index revenge = 3
cset_index stop_net_hack = 4
cset_index enforce_bans = 5
cset_index dynamic_bans = 6
cset_index dont_kick_ops = 7
cset_index cycle = 8
cset_index dynamic_limit = 9
cset_index ban_time = 10
cset_index ban_type = 11
cset_index ban_idle = 12
cset_index limit_gap = 13
cset_index limit_delay = 14
cset_index ignore_time = 15

pub data FloodKind : Type 0 where
  chan ctcp join nick deop kick ban bot_cmd bot_msg bot_ctcp sendq : FloodKind

abbrev pub fl_count : ℕ
fl_count = 11

abbrev pub flood_index : FloodKind → ℕ
flood_index chan = 0
flood_index ctcp = 1
flood_index join = 2
flood_index nick = 3
flood_index deop = 4
flood_index kick = 5
flood_index ban = 6
flood_index bot_cmd = 7
flood_index bot_msg = 8
flood_index bot_ctcp = 9
flood_index sendq = 10

-- The kinds from `chan` to `ban` are per channel.
abbrev pub fl_chan_count : ℕ
fl_chan_count = 7

pub record FloodSpec : Type 0 where
  pub present : Bool
  pub off : Bool
  pub n : ℕ
  pub s : ℕ

abbrev pub no_spec : FloodSpec
no_spec = record { present = false; off = false; n = 0; s = 0 }

-- `present` and `val` are one list: `vals` holds `some v` at the index of a setting whose bit is set.
pub record ChanSettings : Type 0 where
  pub vals : List (Option ℕ)
  pub fl : List FloodSpec
  pub bad_sendq : Bool

abbrev pub no_settings : ChanSettings
no_settings = record {
  vals = replicate cs_count none;
  fl = replicate fl_count no_spec;
  bad_sendq = false;
}

pub record FloodWindow : Type 0 where
  pub start_ms : ℕ
  pub count : ℕ

abbrev pub no_window : FloodWindow
no_window = record { start_ms = 0; count = 0 }

-- An empty `host` is a free slot; `victim_auth` has a bit for each kind.
pub record FloodSrc : Type 0 where
  pub host : Bytes
  pub last_ms : ℕ
  pub w : List FloodWindow
  pub victim_auth : List Bool

abbrev pub no_source : FloodSrc
no_source = record {
  host = [];
  last_ms = 0;
  w = replicate fl_chan_count no_window;
  victim_auth = replicate fl_chan_count false;
}

pub record IgnoreEnt : Type 0 where
  pub key : Bytes
  pub since_ms : ℕ
  pub until_ms : ℕ

pub record HostFlood : Type 0 where
  pub host : Bytes
  pub last_ms : ℕ
  pub msg : FloodWindow
  pub ctcp : FloodWindow

pub record CmdFlood : Type 0 where
  pub uuid : Bytes
  pub last_ms : ℕ
  pub w : FloodWindow
  pub notified : Bool

pub record BotFlood : Type 0 where
  pub ignores : List IgnoreEnt
  pub quiet_until_ms : ℕ
  pub quiet_logged : Bool
  pub host_flood : List HostFlood
  pub cmd_flood : List CmdFlood

abbrev pub no_ignore : IgnoreEnt
no_ignore = record { key = []; since_ms = 0; until_ms = 0 }

abbrev pub no_host : HostFlood
no_host = record { host = []; last_ms = 0; msg = no_window; ctcp = no_window }

abbrev pub no_cmd : CmdFlood
no_cmd = record { uuid = []; last_ms = 0; w = no_window; notified = false }

abbrev pub max_ignores : ℕ
max_ignores = 64

abbrev pub max_host_track : ℕ
max_host_track = 64

abbrev pub max_user_records : ℕ
max_user_records = 40

abbrev pub new_flood : BotFlood
new_flood = record {
  ignores = replicate max_ignores no_ignore;
  quiet_until_ms = 0;
  quiet_logged = false;
  host_flood = replicate max_host_track no_host;
  cmd_flood = replicate max_user_records no_cmd;
}

pub record UserRecord : Type 0 where
  pub uuid : Bytes
  pub name : Bytes
  pub has_pubkey : Bool
  pub is_active : Bool
  pub last_seen : ℕ
  pub act_pending : ℕ

pub record MaskRecord : Type 0 where
  pub uuid : Bytes
  pub mask : Bytes
  pub is_active : Bool
  pub last_used : ℕ
  pub act_pending : ℕ

pub record TrustedBot : Type 0 where
  pub mask : Bytes
  pub uuid : Bytes

pub record CfgBan : Type 0 where
  pub chan : Bytes
  pub mask : Bytes
  pub flags : Bytes
  pub setter : Bytes
  pub reason : Bytes
  pub expires : ℕ
  pub ts : ℕ
  pub active : Bool
  pub push_pending : Bool

-- `CfgBan::default`
abbrev pub no_ban : CfgBan
no_ban = record {
  chan = [];
  mask = [];
  flags = [];
  setter = [];
  reason = [];
  expires = 0;
  ts = 0;
  active = false;
  push_pending = false;
}

pub data ChanStatus : Type 0 where
  no_status out joined : ChanStatus

-- `authorised` and `auth_gen`, a cache of src/chanenf.rs, are left out.
pub record RosterEntry : Type 0 where
  pub nick : Bytes
  pub hostmask : Bytes
  pub is_op : Bool
  pub is_halfop : Bool
  pub is_voice : Bool

pub record LiveBan : Type 0 where
  pub mask : Bytes
  pub setter : Bytes
  pub when : ℕ

-- The bits of `live_flags`, by the letter.
abbrev pub Flags : Type 0
Flags = ℕ → Bool

-- The fields of `Chan` that the modelled parts read or write.
pub record Chan : Type 0 where
  pub name : Bytes
  pub status : ChanStatus
  pub is_managed : Bool
  pub timestamp : ℤ
  pub cfg_modes : Bytes
  pub cfg_settings : Bytes
  pub cfg_set : ChanSettings
  pub cfg_ts : ℕ
  pub cfg_active : Bool
  pub enf_dirty : Bool
  pub enf_ops_check : Bool
  pub flood : List FloodSrc
  pub key : Bytes
  pub modes : ℕ
  pub last_who_request : ℕ
  pub roster : List RosterEntry
  pub last_join_attempt : ℕ
  pub join_disabled : Bool
  pub i_am_opped : Bool
  pub op_request_pending : Bool
  pub last_op_request_time : ℕ
  pub op_request_retry_count : ℕ
  pub last_access_request : List ℕ
  pub access_retry_count : List ℕ
  pub live_flags : Flags
  pub live_key : Bytes
  pub live_limit : ℕ
  pub live_known : Bool
  pub live_created : ℕ
  pub bans : List LiveBan
  pub ban_list_open : Bool
  pub ban_list_known : Bool
  pub ban_overflow_logged : Bool
  pub who_done : Bool
  pub enf_pending : Bool

-- CHAN_REQ_KIND_COUNT
abbrev pub req_kinds : ℕ
req_kinds = 3

-- `Chan::default`
abbrev pub no_chan : Chan
no_chan = record {
  name = [];
  status = no_status;
  is_managed = false;
  timestamp = pos 0;
  cfg_modes = [];
  cfg_settings = [];
  cfg_set = no_settings;
  cfg_ts = 0;
  cfg_active = false;
  enf_dirty = false;
  enf_ops_check = false;
  flood = [];
  key = [];
  modes = 0;
  last_who_request = 0;
  roster = [];
  last_join_attempt = 0;
  join_disabled = false;
  i_am_opped = false;
  op_request_pending = false;
  last_op_request_time = 0;
  op_request_retry_count = 0;
  last_access_request = replicate req_kinds 0;
  access_retry_count = replicate req_kinds 0;
  live_flags = λ letter. false;
  live_key = [];
  live_limit = 0;
  live_known = false;
  live_created = 0;
  bans = [];
  ban_list_open = false;
  ban_list_known = false;
  ban_overflow_logged = false;
  who_done = false;
  enf_pending = false;
}

-- What the server says of itself in a 005 line.
pub record Isupport : Type 0 where
  pub modes : ℕ
  pub maxlist_b : ℕ
  pub prefix_modes : Bytes
  pub prefix_syms : Bytes
  pub cm_a : Bytes
  pub cm_b : Bytes
  pub cm_c : Bytes
  pub cm_d : Bytes
  pub nicklen : ℕ

abbrev pub isupport_modes_default : ℕ
isupport_modes_default = 3

abbrev pub nicklen_default : ℕ
nicklen_default = 30

-- `Isupport::default`
abbrev pub no_isupport : Isupport
no_isupport = record {
  modes = isupport_modes_default;
  maxlist_b = 0;
  prefix_modes = codes "ov";
  prefix_syms = codes "@+";
  cm_a = codes "beI";
  cm_b = codes "k";
  cm_c = codes "l";
  cm_d = codes "imnpst";
  nicklen = nicklen_default;
}

pub data ChanReq : Type 0 where
  unban invite key : ChanReq

abbrev pub req_index : ChanReq → ℕ
req_index ChanReq.unban = 0
req_index ChanReq.invite = 1
req_index ChanReq.key = 2

abbrev pub token : ChanReq → Bytes
token ChanReq.unban = codes "unban"
token ChanReq.invite = codes "invite"
token ChanReq.key = codes "key"

pub record UnbanJob : Type 0 where
  pub channel : Bytes
  pub hostmask : Bytes
  pub started : ℕ
  pub removed : ℕ
  pub active : Bool

abbrev pub no_job : UnbanJob
no_job = record { channel = []; hostmask = []; started = 0; removed = 0; active = false }

abbrev pub max_unban_jobs : ℕ
max_unban_jobs = 8

-- The fields of `BotState` that the modelled parts read or write. `hub_ready` is `link_ready`, and
-- `pushed` the records that went to the hub.
pub record BotState : Type 0 where
  pub chans : List Chan
  pub trusted_bots : List TrustedBot
  pub user_records : List UserRecord
  pub mask_records : List MaskRecord
  pub net_modes : Bytes
  pub net_settings : Bytes
  pub net_set : ChanSettings
  pub net_ts : ℕ
  pub cfg_bans : List CfgBan
  pub cfg_gen : ℕ
  pub opt_flags : Bytes
  pub bot_uuid : Bytes
  pub config_dirty : Bool
  pub output : Output
  pub flood : BotFlood
  pub hub_ready : Bool
  pub pushed : List Bytes
  -- S_AUTHED of `status`; S_CONNECTED is `output.connected`
  pub authed : Bool
  pub current_nick : Bytes
  pub isup : Isupport
  pub chan_req_fallback_idx : ℕ
  pub last_chan_request_sent : ℕ
  pub unban_jobs : List UnbanJob
  -- is `dcc_reply` set?
  pub replying : Bool
  -- `hub_connected && hub_authenticated && hub.is_some()`
  pub hub_up : Bool
  -- the frames that went to the hub with a command other than CMD_CONFIG_PUSH
  pub frames : List (ℕ × Bytes)
  -- what bot_comms was asked to send: the nick and the command
  pub told : List (Bytes × Bytes)
