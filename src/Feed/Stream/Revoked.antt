-- ===== src/Feed/Stream/Revoked.antt =====
-- The revocation of a token and the streams that it authenticated (internal/server/feed/stream.go).
use diyddns.Prelude.{
  ℕ, String, Bool, true, ◌&&◌, ◌≡◌, ◌≢◌, refl, sym, ap, subst, ◌∙◌, some, str_eq, eq_self,
  if◌then◌else◌, arith,
}
use diyddns.Store.Db.{not_found, conflict, driver, Result, ok, err}
use diyddns.Store.Tokens.{FeedToken, get_token_by_id}
use diyddns.Store.Tokens.Laws.{get_token_by_id_ok}
use diyddns.Service.Credentials.{good}
use diyddns.Service.Tokens.{FeedService, revoke_token}
use diyddns.Service.Tokens.Gone.{Gone, revoke_token_good}
use diyddns.Service.Tokens.Reaches.{Reaches, Reaches-Gone}
use diyddns.Feed.Hub.{Hub, Subscriber, revoked, cancel, nth, close_token}
use diyddns.Feed.Hub.Bounds.{Cut, cancel-Cut}
use diyddns.Feed.Hub.Slots.{nth-update_where}
use diyddns.Feed.Stream.{opened, rechecked, token_still_live}

-- The subscriber at that place has been cancelled.
abbrev pub CutAt : ℕ → Hub → Type 0
CutAt k h = (s : Subscriber) × (nth k h.subs ≡ some s) × Cut s

closed-CutAt :
    (k : ℕ) (token_id : String) (h : Hub) (s : Subscriber)
    → nth k h.subs ≡ some s
    → s.live ≡ true
    → s.token_id ≡ token_id
    → CutAt k (close_token token_id h)
unfolding close_token
closed-CutAt k token_id h s at live same =
    let p : Subscriber → Bool = λ s. s.live && str_eq s.token_id token_id in
    let is : p s ≡ true =
      ap (λ b. b && str_eq s.token_id token_id) live
      ∙ ap (λ i. str_eq i token_id) same
      ∙ eq_self token_id in
    (
      cancel revoked s,
      nth-update_where k p (cancel revoked) h.subs s at
          ∙ ap (λ b. some (if b then cancel revoked s else s)) is,
      cancel-Cut revoked s,
    )

-- A token that is gone opens no stream.
token_still_live-Gone :
    (k j : ℕ) (id : String) (s : FeedService Hub)
    → Gone id s.db
    → (token_still_live k id s).0 ≢ opened j
unfolding token_still_live
token_still_live-Gone k j id s gone h = looked_up (get_token_by_id id s.db).0 refl h
  where
    looked_up :
        (r : Result FeedToken)
        → (get_token_by_id id s.db).0 ≡ r
        → (rechecked k s (r, (get_token_by_id id s.db).1)).0 ≡ opened j
        → ⊥
    looked_up (ok tok) e h =
        let present = get_token_by_id_ok id s.db tok e in ground (arith, present, gone)
    looked_up (err not_found) e h = ground arith
    looked_up (err conflict) e h = ground arith
    looked_up (err driver) e h = ground arith

-- After a revocation that succeeds, every subscriber of that token that was in the map has been cancelled,
-- and one that takes its slot earlier or later and looks at the row again afterwards is not admitted,
-- whatever was done in between by the steps of `Reaches`.
pub revoke_token-CutAt :
    (hash_token json_label : String → String) (actor id : String) (s later : FeedService Hub)
    → (revoke_token Hub hash_token json_label close_token actor id s).0 ≡ good tt
    → Reaches Hub hash_token json_label close_token id
        (revoke_token Hub hash_token json_label close_token actor id s).1
        later
    → ((k : ℕ) (sub : Subscriber)
        → nth k s.streams.subs ≡ some sub
        → sub.live ≡ true
        → sub.token_id ≡ id
        → CutAt k (revoke_token Hub hash_token json_label close_token actor id s).1.streams)
      × ((k j : ℕ) → (token_still_live k id later).0 ≢ opened j)
revoke_token-CutAt hash_token json_label actor id s later h reach =
    let (gone, streams) = revoke_token_good Hub hash_token json_label close_token id actor s h in
    (
      λ k sub at live same.
          subst (CutAt k) (sym streams) (closed-CutAt k id s.streams sub at live same),
      λ k j. token_still_live-Gone k j id later (
          Reaches-Gone Hub hash_token json_label close_token id
            (revoke_token Hub hash_token json_label close_token actor id s).1 later reach gone),
    )
