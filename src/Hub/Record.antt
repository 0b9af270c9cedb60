-- ===== src/Hub/Record.antt =====
-- src/hub_client.rs: `parse_hub_chan`, the four shapes of a c| record.
use ircbot_rs.Prelude.{
  ℕ, Option, none, some, List, [], ◌∷◌, ltb, leb, if◌then◌else◌, length, get_elem?,
}
use ircbot_rs.Prelude.Int.{ℤ, pos}
use ircbot_rs.Cstr.{Bytes, codes}
use ircbot_rs.Cstr.Scan.{Fmt, Conv, conv_s, conv_i, sscanf}

abbrev pub bar : Bytes
bar = b'|' ∷ []

abbrev field : ℕ → Fmt
field max = Fmt.set max bar

abbrev sep : Fmt
sep = Fmt.literal bar

abbrev gap : Fmt
gap = Fmt.literal (codes "||")

-- The conversions at an index, or what the variable holds from before.
abbrev s_at : List Conv → ℕ → Bytes → Bytes
s_at r i old = elim (get_elem? r i) [ none ↦ old | some v ↦ conv_s v ]

abbrev i_at : List Conv → ℕ → ℤ → ℤ
i_at r i old = elim (get_elem? r i) [ none ↦ old | some v ↦ conv_i v ]

-- The variables that the attempts fill.
pub record HubChan : Type 0 where
  pub chan : Bytes
  pub key : Bytes
  pub modes : ℤ
  pub op : Bytes
  pub ts : ℤ

abbrev no_hub_chan : HubChan
no_hub_chan = record { chan = []; key = []; modes = pos 0; op = []; ts = pos 0 }

-- chan|key|modes|op|ts
abbrev pub keyed_fmt : List Fmt
keyed_fmt = field 64 ∷ sep ∷ field 30 ∷ sep ∷ Fmt.number ∷ sep ∷ field 7 ∷ sep ∷ Fmt.number ∷ []

-- chan||modes|op|ts
abbrev pub keyless_fmt : List Fmt
keyless_fmt = field 64 ∷ gap ∷ Fmt.number ∷ sep ∷ field 7 ∷ sep ∷ Fmt.number ∷ []

-- chan|key|op|ts
abbrev pub old_keyed_fmt : List Fmt
old_keyed_fmt = field 64 ∷ sep ∷ field 30 ∷ sep ∷ field 7 ∷ sep ∷ Fmt.number ∷ []

-- chan||op|ts
abbrev pub old_keyless_fmt : List Fmt
old_keyless_fmt = field 64 ∷ gap ∷ field 7 ∷ sep ∷ Fmt.number ∷ []

abbrev pub read_keyed : List Conv → HubChan
read_keyed r = record {
  chan = s_at r 0 [];
  key = s_at r 1 [];
  modes = i_at r 2 (pos 0);
  op = s_at r 3 [];
  ts = i_at r 4 (pos 0);
}

abbrev pub read_keyless : List Conv → HubChan → HubChan
read_keyless r v = record v {
  chan = s_at r 0 v.chan;
  modes = i_at r 1 (pos 0);
  op = s_at r 2 v.op;
  ts = i_at r 3 v.ts;
}

abbrev pub read_old_keyed : List Conv → HubChan → HubChan
read_old_keyed r v = record v {
  chan = s_at r 0 v.chan;
  key = s_at r 1 v.key;
  modes = pos 0;
  op = s_at r 2 v.op;
  ts = i_at r 3 v.ts;
}

abbrev pub read_old_keyless : List Conv → HubChan → HubChan
read_old_keyless r v = record v {
  chan = s_at r 0 v.chan;
  key = [];
  op = s_at r 1 v.op;
  ts = i_at r 2 v.ts;
}

-- `parsed >= 3`
abbrev pub if_enough : List Conv → HubChan → Option HubChan
if_enough r v = if ltb (length r) 3 then none else some v

abbrev pub old_keyless : Bytes → HubChan → Option HubChan
old_keyless s v = let r = sscanf s old_keyless_fmt in if_enough r (read_old_keyless r v)

abbrev pub old_keyed : Bytes → HubChan → Option HubChan
old_keyed s v =
    let r = sscanf s old_keyed_fmt in
    if ltb (length r) 3 then old_keyless s (read_old_keyed r v) else some (read_old_keyed r v)

abbrev pub keyless : Bytes → HubChan → Option HubChan
keyless s v =
    let r = sscanf s keyless_fmt in
    if leb 4 (length r)
    then some (record (read_keyless r v) { key = [] })
    else old_keyed s (read_keyless r v)

-- `modes` is read with `as i32 as u32` where it is used.
unfoldable pub parse_hub_chan : Bytes → Option HubChan
unfolding conv_s conv_i
parse_hub_chan s =
    let r = sscanf s keyed_fmt in
    if ltb (length r) 5 then keyless s (read_keyed r) else some (read_keyed r)
