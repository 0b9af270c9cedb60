-- ===== src/Hub/Merge.antt =====
-- A c| record of src/hub_client.rs is merged last writer wins, whatever the bot does about it.
use ircbot_rs.Prelude.{
  ℕ, zero, suc, ◌≡◌, refl, sym, ap, ◌∙◌, Bool, true, false, not, ◌&&◌, Option, none, some, List, [],
  ◌∷◌, ◌++◌, map, adjust, get_elem?, arith, if_split, if◌then◌else◌, position, length,
}
use ircbot_rs.Cstr.{Bytes, eq_ic, is_empty, trunc}
use ircbot_rs.Cstr.Scan.{as_u32}
use ircbot_rs.Lww.{lww_accepts_i64}
use ircbot_rs.ChanCfg.Parse.{max_chan}
use ircbot_rs.State.{Chan, BotState}
use ircbot_rs.Channel.{find, add, new_chan, is_in, modify}
use ircbot_rs.Channel.Access.{max_key}
use ircbot_rs.Link.{World, irc_printf, is_message}
use ircbot_rs.Link.Stored.{irc_printf-Sent, Sent-held, Held, held}
use ircbot_rs.Hub.Record.{HubChan}
use ircbot_rs.Hub.Sync.{
  new_from, is_add, take_record, part_line, rejoin_line, leave, follow, accepts, update_chan,
  sync_listed, sync_at, sync_record,
}

-- A change that the disconnect view does not show.
adjust-held :
    (f : Chan → Chan) (i : ℕ) (chans : List Chan)
    → ((c : Chan) → held (f c) ≡ held c)
    → map held (adjust f i chans) ≡ map held chans
adjust-held f i [] same = refl
adjust-held f zero (c ∷ chans) same = ap (λ h. h ∷ map held chans) (same c)
adjust-held f (suc i) (c ∷ chans) same = ap (λ l. held c ∷ l) (adjust-held f i chans same)

said :
    (w : World) (line : Bytes) (st : BotState)
    → is_message line ≡ false
    → map held (irc_printf w line st).chans ≡ map held st.chans
said w line st h = Sent-held (irc_printf-Sent w line st h)

rejoin-is_message : (chan key : Bytes) → is_message (rejoin_line chan key) ≡ false
rejoin-is_message chan key =
    if_split (λ l. is_message l ≡ false) (is_empty key) _ _ (λ _. refl) (λ _. refl)

-- What the bot says of a change leaves the record's part of the channels alone.
follow-held :
    (w : World) (h : HubChan) (ci : ℕ) (c : Chan) (st : BotState)
    → map held (follow w h ci c st).chans ≡ map held st.chans
follow-held w h ci c st =
    let Keeps : BotState → Type 0 = λ st'. map held st'.chans ≡ map held st.chans in
    let joins : Bool = not c.is_managed && is_add h && not (is_in c.status) in
    let parted : BotState = irc_printf w (part_line h.chan) st in
    if_split Keeps (c.is_managed && not (is_add h) && is_in c.status) (modify leave ci parted) _
      (λ _. adjust-held leave ci parted.chans (λ c. refl) ∙ said w (part_line h.chan) st refl)
      (λ _.
        if_split Keeps joins _ st
          (λ _.
            said w (rejoin_line h.chan (take_record h true c).key) st
              (rejoin-is_message h.chan (take_record h true c).key))
          (λ _. refl))

-- The record over what is held, last writer wins; an empty key leaves the old one.
abbrev pub wins : HubChan → Held → Bool
wins h c = lww_accepts_i64 h.ts (is_add h) c.timestamp c.is_managed

abbrev pub over : HubChan → Held → Held
over h c = record c {
  key = if is_empty h.key then c.key else trunc h.key max_key;
  modes = as_u32 h.modes;
  is_managed = is_add h;
  timestamp = h.ts;
}

abbrev pub merged : HubChan → Held → Held
merged h c = if wins h c then over h c else c

-- A channel that was not held.
abbrev pub fresh : HubChan → Held
fresh h = record {
  name = trunc h.chan max_chan;
  key = if is_empty h.key then [] else trunc h.key max_key;
  modes = as_u32 h.modes;
  is_managed = true;
  timestamp = h.ts;
}

abbrev pub merge_at : HubChan → List Held → Option ℕ → List Held
merge_at h l (some i) = adjust (merged h) i l
merge_at h l none = if is_add h then l ++ fresh h ∷ [] else l

-- The merge of one record into the channels that are held.
abbrev pub merge : HubChan → List Held → List Held
merge h l = merge_at h l (position (λ c. eq_ic c.name h.chan) l)

position-held :
    (name : Bytes) (chans : List Chan)
    → position (λ (c : Held). eq_ic c.name name) (map held chans)
      ≡ position (λ (c : Chan). eq_ic c.name name) chans
position-held name [] = refl
position-held name (c ∷ chans) = ground (arith, position-held name chans)

adjust-map :
    (f : Chan → Chan) (g : Held → Held) (i : ℕ) (chans : List Chan) (c : Chan)
    → get_elem? chans i ≡ some c
    → held (f c) ≡ g (held c)
    → map held (adjust f i chans) ≡ adjust g i (map held chans)
adjust-map f g i [] c at h = ground arith
adjust-map f g zero (x ∷ chans) c at h =
    let e : x ≡ c = ground arith in
    ap (λ l. l ∷ map held chans) (ap (λ y. held (f y)) e ∙ h ∙ sym (ap (λ y. g (held y)) e))
adjust-map f g (suc i) (x ∷ chans) c at h = ap (λ l. held x ∷ l) (adjust-map f g i chans c at h)

adjust-same :
    (g : Held → Held) (i : ℕ) (chans : List Chan) (c : Chan)
    → get_elem? chans i ≡ some c
    → g (held c) ≡ held c
    → adjust g i (map held chans) ≡ map held chans
adjust-same g i [] c at h = ground arith
adjust-same g zero (x ∷ chans) c at h =
    let e : x ≡ c = ground arith in
    ap (λ y. y ∷ map held chans) (ap (λ y. g (held y)) e ∙ h ∙ sym (ap held e))
adjust-same g (suc i) (x ∷ chans) c at h = ap (λ l. held x ∷ l) (adjust-same g i chans c at h)

update_chan-held :
    (w : World) (h : HubChan) (ci : ℕ) (c : Chan) (st : BotState)
    → get_elem? st.chans ci ≡ some c
    → map held (update_chan w h ci c st).1.chans ≡ adjust (merged h) ci (map held st.chans)
update_chan-held w h ci c st at =
    let Goal : Bool × BotState → Type 0 =
      λ p. map held p.1.chans ≡ adjust (merged h) ci (map held st.chans) in
    let choice : Bool → Held = λ b. if b then over h (held c) else held c in
    let taken : BotState = modify (take_record h (is_add h)) ci st in
    if_split Goal (accepts h c) (true, follow w h ci c taken) (false, st)
      (λ e.
        follow-held w h ci c taken
        ∙ adjust-map (take_record h (is_add h)) (merged h) ci st.chans c at (ap choice (sym e)))
      (λ e. sym (adjust-same (merged h) ci st.chans c at (ap choice e)))

map-append : (xs ys : List Chan) → map held (xs ++ ys) ≡ map held xs ++ map held ys
map-append [] ys = refl
map-append (x ∷ xs) ys = ap (λ l. held x ∷ l) (map-append xs ys)

adjust-last :
    (f : Chan → Chan) (chans : List Chan) (c : Chan)
    → adjust f (length chans) (chans ++ c ∷ []) ≡ chans ++ f c ∷ []
adjust-last f [] c = refl
adjust-last f (x ∷ chans) c = ap (λ l. x ∷ l) (adjust-last f chans c)

-- Where the channel is not listed.
sync_new-held :
    (w : World) (h : HubChan) (st : BotState)
    → find st h.chan ≡ none
    → map held (sync_at w h st none).1.chans ≡ merge_at h (map held st.chans) none
unfolding add find
sync_new-held w h st e =
    let Goal : Bool × BotState → Type 0 =
      λ p. map held p.1.chans ≡ merge_at h (map held st.chans) none in
    let choice : Bool → List Held =
      λ b. if b then map held st.chans ++ fresh h ∷ [] else map held st.chans in
    if_split Goal (is_add h) (new_from h st (add w.now st h.chan)) (false, st)
      (λ b.
        rw (add, e)
          (ap (λ l. map held l) (adjust-last (take_record h true) st.chans (new_chan w.now h.chan))
            ∙ map-append st.chans (take_record h true (new_chan w.now h.chan) ∷ [])
            ∙ ap choice (sym b)))
      (λ b. ap choice (sym b))

adjust-out :
    (g : Held → Held) (i : ℕ) (chans : List Chan)
    → get_elem? chans i ≡ none
    → map held chans ≡ adjust g i (map held chans)
adjust-out g i [] at = refl
adjust-out g zero (x ∷ chans) at = ground arith
adjust-out g (suc i) (x ∷ chans) at = ap (λ l. held x ∷ l) (adjust-out g i chans at)

sync_listed-held :
    (w : World) (h : HubChan) (ci : ℕ) (st : BotState) (o : Option Chan)
    → get_elem? st.chans ci ≡ o
    → map held (sync_listed w h ci st o).1.chans ≡ adjust (merged h) ci (map held st.chans)
sync_listed-held w h ci st none at = adjust-out (merged h) ci st.chans at
sync_listed-held w h ci st (some c) at = update_chan-held w h ci c st at

sync_at-held :
    (w : World) (h : HubChan) (st : BotState) (o : Option ℕ)
    → find st h.chan ≡ o
    → map held (sync_at w h st o).1.chans ≡ merge_at h (map held st.chans) o
sync_at-held w h st none e = sync_new-held w h st e
sync_at-held w h st (some ci) e = sync_listed-held w h ci st (get_elem? st.chans ci) refl

-- Whatever the bot says to the server and even where it loses the connection over it, a c| record
-- from the hub leaves of each channel's name, key, modes, managed flag and stamp what the merge of
-- the record gives: a listed channel takes it where it wins, an unlisted one is added by an add, and
-- no other channel changes.
pub sync_record-merge :
    (w : World) (h : HubChan) (st : BotState)
    → map held (sync_record w h st).1.chans ≡ merge h (map held st.chans)
unfolding sync_record find
sync_record-merge w h st =
    sync_at-held w h st (find st h.chan) refl
    ∙ ap (merge_at h (map held st.chans)) (sym (position-held h.chan st.chans))
