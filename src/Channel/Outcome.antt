-- ===== src/Channel/Outcome.antt =====
-- The outcomes of one `access_request` of src/channel.rs.
use ircbot_rs.Prelude.{
  ℕ, zero, suc, ◌+◌, ◌≤◌, ◌<◌, ◌≡◌, refl, sym, ap, ◌∙◌, ◌⊎◌, inl, inr, Bool, true, false, not, ◌&&◌,
  ◌||◌, Option, none, some, [], ◌∷◌, ◌++◌, adjust, get_elem?, arith, if_split, length, leb, ltb,
  ◌==◌, if◌then◌else◌, Bool-cases, length-append,
}
use ircbot_rs.Cstr.{Bytes}
use ircbot_rs.State.{Chan, ChanReq, BotState, token}
use ircbot_rs.ChanCfg.Parse.{max_chan}
use ircbot_rs.Channel.{modify}
use ircbot_rs.Channel.Access.{
  Frames, cmd_chan_request, send_chan_request, is_nameless, is_passed_over, advance, nick_at,
  fallback_from, access_fallback, retries, asked_at, clear_retries, note_request, or_fallback,
  after_request, request_paced, request_on, request_listed, access_request,
  chan_request_min_interval, chan_request_retry_time, chan_request_max_retries,
  chan_request_cooloff,
}

-- How many requests and replies have left the bot.
abbrev pub traffic : BotState → ℕ
traffic st = length st.frames + length st.told

-- A send that leaves the channels and the last stamp alone, and that adds one message if it succeeds.
pub record IsSend (st : BotState) (r : Bool × BotState) : Type 0 where
  pub chans : r.1.chans ≡ st.chans
  pub stamp : r.1.last_chan_request_sent ≡ st.last_chan_request_sent
  pub count : traffic r.1 ≡ (if r.0 then suc (traffic st) else traffic st)

send_chan_request-IsSend :
    (hub : Frames) (kind channel : Bytes) (st : BotState)
    → IsSend st (send_chan_request hub kind channel st)
unfolding send_chan_request
send_chan_request-IsSend hub kind channel st =
    let payload : Bytes = kind ++ b'|' ∷ channel in
    let frame : ℕ × Bytes = (cmd_chan_request, payload) in
    let no : Bool =
      not st.hub_up || leb (max_chan + 16) (length payload) || not (hub st.frames frame) in
    if_split (IsSend st) no (false, st) (true, record st { frames = st.frames ++ frame ∷ [] })
      (λ _. record { chans = refl; stamp = refl; count = refl })
      (λ _. record {
        chans = refl;
        stamp = refl;
        count = omega (arith, length-append {0} st.frames);
      })

fallback_from-IsSend :
    (rounds : ℕ) (kind : ChanReq) (channel : Bytes) (st : BotState)
    → IsSend st (fallback_from rounds kind channel st)
unfolding fallback_from
fallback_from-IsSend zero kind channel st = record { chans = refl; stamp = refl; count = refl }
fallback_from-IsSend (suc rounds) kind channel st =
    let n : ℕ = length st.trusted_bots in
    let ih : IsSend (advance n st) (fallback_from rounds kind channel (advance n st)) =
      fallback_from-IsSend rounds kind channel (advance n st) in
    if_split (IsSend st) (is_passed_over (nick_at st n) st.current_nick) _ _
      (λ _. record { chans = ih.chans; stamp = ih.stamp; count = ih.count })
      (λ _.
        if_split (IsSend st) (is_nameless kind st.current_nick) _ _
          (λ _. record { chans = refl; stamp = refl; count = refl })
          (λ _. record {
            chans = refl;
            stamp = refl;
            count = omega (arith, length-append {0} st.told);
          }))

or_fallback-IsSend :
    (kind : ChanReq) (name : Bytes) (st : BotState) (r : Bool × BotState)
    → IsSend st r
    → IsSend st (or_fallback kind name r)
unfolding access_fallback
or_fallback-IsSend kind name st (true, st') h = h
or_fallback-IsSend kind name st (false, st') h =
    let more : IsSend st' (access_fallback kind name st') =
      fallback_from-IsSend (length st'.trusted_bots) kind name st' in
    record {
      chans = more.chans ∙ h.chans;
      stamp = more.stamp ∙ h.stamp;
      count = rw (sym h.count) more.count;
    }

-- The request waits for its turn: since the last for this channel and kind, and since any.
pub record IsTurn (now : ℕ) (kind : ChanReq) (c : Chan) (st : BotState) : Type 0 where
  pub own : (asked_at kind c ≡ 0) ⊎ (asked_at kind c + chan_request_retry_time ≤ now)
  pub any : st.last_chan_request_sent + chan_request_min_interval ≤ now

own_turn :
    (asked now : ℕ)
    → (not (asked == 0) && ltb now (asked + chan_request_retry_time)) ≡ false
    → (asked ≡ 0) ⊎ (asked + chan_request_retry_time ≤ now)
own_turn asked now h = elim (Bool-cases (asked == 0)) [
  | inl e ↦ inl (ground arith)
  | inr e ↦ inr (ground arith)
]

-- What a request whose retry count allows it does, `c` being the channel then.
pub data Paced (now ci : ℕ) (kind : ChanReq) (c : Chan) (st : BotState)
    : Bool × BotState → Type 0 where
  waits :
      (st' : BotState)
      → st'.chans ≡ st.chans
      → st'.last_chan_request_sent ≡ st.last_chan_request_sent
      → traffic st' ≡ traffic st
      → Paced now ci kind c st (false, st')
  leaves :
      (st' : BotState)
      → IsTurn now kind c st
      → st'.chans ≡ adjust (note_request kind now) ci st.chans
      → st'.last_chan_request_sent ≡ now
      → traffic st' ≡ suc (traffic st)
      → Paced now ci kind c st (true, st')

after_request-Paced :
    (now ci : ℕ) (kind : ChanReq) (c : Chan) (st : BotState) (r : Bool × BotState)
    → IsTurn now kind c st
    → IsSend st r
    → Paced now ci kind c st (after_request kind now ci r)
after_request-Paced now ci kind c st (false, st') t h = waits st' h.chans h.stamp h.count
after_request-Paced now ci kind c st (true, st') t h =
    leaves _ t (ap (adjust (note_request kind now) ci) h.chans) refl h.count

request_paced-Paced :
    (hub : Frames) (now ci : ℕ) (kind : ChanReq) (c : Chan) (st : BotState)
    → Paced now ci kind c st (request_paced hub now ci kind c st)
request_paced-Paced hub now ci kind c st =
    let Goal : Bool × BotState → Type 0 = Paced now ci kind c st in
    let early : Bool =
      not (asked_at kind c == 0) && ltb now (asked_at kind c + chan_request_retry_time) in
    let soon : Bool = ltb now (st.last_chan_request_sent + chan_request_min_interval) in
    let sent : Bool × BotState =
      or_fallback kind c.name (send_chan_request hub (token kind) c.name st) in
    let asks : Bool × BotState = after_request kind now ci sent in
    if_split Goal early (false, st) (if soon then (false, st) else asks)
      (λ _. waits st refl refl refl)
      (λ e.
        if_split Goal soon (false, st) asks (λ _. waits st refl refl refl)
          (λ s.
            after_request-Paced now ci kind c st sent
              (record { own = own_turn (asked_at kind c) now e; any = ground arith })
              (or_fallback-IsSend kind c.name st _
                (send_chan_request-IsSend hub (token kind) c.name st))))

-- What a request for channel `ci` does.
pub data Outcome (now ci : ℕ) (kind : ChanReq) (st : BotState) : Bool × BotState → Type 0 where
  refused : Outcome now ci kind st (false, st)
  counted :
      {r : Bool × BotState} (c : Chan)
      → get_elem? st.chans ci ≡ some c
      → retries kind c < chan_request_max_retries
      → Paced now ci kind c st r
      → Outcome now ci kind st r
  -- a long quiet spell clears the retry count
  cooled :
      {r : Bool × BotState} (c : Chan)
      → get_elem? st.chans ci ≡ some c
      → asked_at kind c + chan_request_cooloff < now
      → Paced now ci kind (clear_retries kind c) (modify (clear_retries kind) ci st) r
      → Outcome now ci kind st r

request_on-Outcome :
    (hub : Frames) (now ci : ℕ) (kind : ChanReq) (c : Chan) (st : BotState)
    → get_elem? st.chans ci ≡ some c
    → Outcome now ci kind st (request_on hub now ci kind c st)
request_on-Outcome hub now ci kind c st at =
    let Goal : Bool × BotState → Type 0 = Outcome now ci kind st in
    let barred : Bool = not c.is_managed || c.join_disabled || not st.authed in
    let cool : Bool = ltb (asked_at kind c + chan_request_cooloff) now in
    let now_paced : Bool × BotState = request_paced hub now ci kind c st in
    let then_paced : Bool × BotState =
      request_paced hub now ci kind (clear_retries kind c) (modify (clear_retries kind) ci st) in
    let past : Bool × BotState = if cool then then_paced else (false, st) in
    let few : Bool = ltb (retries kind c) chan_request_max_retries in
    if_split Goal barred (false, st) (if few then now_paced else past) (λ _. refused)
      (λ _.
        if_split Goal few now_paced past
          (λ e. counted c at (ground arith) (request_paced-Paced hub now ci kind c st))
          (λ _.
            if_split Goal cool then_paced (false, st)
              (λ e. cooled c at (ground arith) (request_paced-Paced hub now ci kind _ _))
              (λ _. refused)))

request_listed-Outcome :
    (hub : Frames) (now ci : ℕ) (kind : ChanReq) (st : BotState) (o : Option Chan)
    → get_elem? st.chans ci ≡ o
    → Outcome now ci kind st (request_listed hub now ci kind st o)
request_listed-Outcome hub now ci kind st none at = refused
request_listed-Outcome hub now ci kind st (some c) at = request_on-Outcome hub now ci kind c st at

pub access_request-Outcome :
    (hub : Frames) (now ci : ℕ) (kind : ChanReq) (st : BotState)
    → Outcome now ci kind st (access_request hub now ci kind st)
unfolding access_request
access_request-Outcome hub now ci kind st = request_listed-Outcome hub now ci kind st _ refl
