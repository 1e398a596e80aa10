-- ===== src/System/Placing.antt =====
-- Which backends the handles of all feedbacks belong to.
use touch_feedback.Base.{
  ℕ, ◌≡◌, refl, sym, subst, some, none, List, [], ◌∷◌, ◌++◌, arith, length, inl, inr, get_elem?,
  Option, zero, suc, ◌+◌,
}
use touch_feedback.Base.Text.{Text}
use touch_feedback.Base.Dict.{lookup}
use touch_feedback.Backend.Ledger.{IsTidy}
use touch_feedback.World.{Platform, Handle, World}
use touch_feedback.Feedback.{Feedback}
use touch_feedback.Feedback.Owning.{play_feedback-Ledger}
use touch_feedback.Feedback.Later.{Later, Later-refl, Later-Keeps}
use touch_feedback.Cache.Keys.{TellsIndexes}
use touch_feedback.Feedback.Placing.{PlacedSlots}
use touch_feedback.Session.{Session, new_session, reload_feedbacks}
use touch_feedback.Session.Keeping.{destroy_session-Keeps, SetUp, setup_cases, theme_changed_cases}
use touch_feedback.Session.Placing.{
  HashPlaced, Later-HashPlaced, lookup-HashPlaced, map_feedbacks-HashPlaced,
  reload_feedbacks-HashPlaced,
}
use touch_feedback.System.{
  System, Step, connects, sets_up, changes_theme, ends, plays, manages, Reach, start, next,
}
use touch_feedback.System.Invariant.{Sound, focus}
use touch_feedback.System.Outcomes.{Reach-Sound}
use touch_feedback.System.Staying.{tuned-Later, managed-Later, mapped-Later, reloaded-Later}

abbrev pub AllPlaced : World → List Session → Type 0
AllPlaced w [] = Unit {0}
AllPlaced w (x ∷ sessions) = HashPlaced w x.feedback_hash × AllPlaced w sessions

Later-AllPlaced :
    (v w : World) (sessions : List Session)
    → Later v w
    → AllPlaced v sessions
    → AllPlaced w sessions
Later-AllPlaced v w [] l x = tt
Later-AllPlaced v w (y ∷ sessions) l x =
    (Later-HashPlaced v w y.feedback_hash l x.0, Later-AllPlaced v w sessions l x.1)

AllPlaced-middle :
    (w : World) (before after : List Session) (x : Session)
    → AllPlaced w (before ++ x ∷ after)
    → HashPlaced w x.feedback_hash × AllPlaced w (before ++ after)
AllPlaced-middle w [] after x v = v
AllPlaced-middle w (y ∷ before) after x v =
    let rest = AllPlaced-middle w before after x v.1 in (rest.0, (v.0, rest.1))

AllPlaced-put :
    (w : World) (before after : List Session) (x : Session)
    → HashPlaced w x.feedback_hash
    → AllPlaced w (before ++ after)
    → AllPlaced w (before ++ x ∷ after)
AllPlaced-put w [] after x own v = (own, v)
AllPlaced-put w (y ∷ before) after x own v = (v.0, AllPlaced-put w before after x own v.1)

module _ (p : Platform) where
  -- A session is changed among others, and the world with it.
  put-AllPlaced :
      (s : System) (before after : List Session) (x y : Session) (u : World)
      → s.sessions ≡ before ++ x ∷ after
      → Later s.world u
      → AllPlaced s.world s.sessions
      → (HashPlaced s.world x.feedback_hash → HashPlaced u y.feedback_hash)
      → AllPlaced u (before ++ y ∷ after)
  put-AllPlaced s before after x y u e l v step =
      let (own, others) = AllPlaced-middle s.world before after x (rw e at v) in
      AllPlaced-put u before after y (step own)
        (Later-AllPlaced s.world u (before ++ after) l others)

module _ (p : Platform) (tidy : IsTidy p.plugin) where
  -- Each event keeps the backends, and the handles in their places.
  abbrev After : System → System → Type 0
  After s t =
      Later s.world t.world
      × (TellsIndexes p (length s.world.backend_list)
          → AllPlaced s.world s.sessions
          → AllPlaced t.world t.sessions)

  mapped-After :
      (s : System) (before after : List Session) (x y : Session) (u : World)
      → s.sessions ≡ before ++ x ∷ after
      → SetUp p x s.world y u
      → Sound p s
      → After s (record { world = u; sessions = before ++ y ∷ after })
  mapped-After s before after x y u e (inl (same, still)) sound =
      let l = subst (Later s.world) still (Later-refl s.world) in
      (
        l,
        λ tells v. put-AllPlaced p s before after x y u e l v (λ own.
            Later-HashPlaced s.world u y.feedback_hash l
              (subst (λ (z : Session). HashPlaced s.world z.feedback_hash) same own)),
      )
  mapped-After s before after x y u e (inr (lists, same, still)) sound =
      let l = subst (Later s.world) still (mapped-Later p lists x s.world) in
      (
        l,
        λ tells v. put-AllPlaced p s before after x y u e l v (λ own.
            subst (λ (r : Session × World). HashPlaced r.1 r.0.feedback_hash)
              (λ i. (same i, still i))
              (map_feedbacks-HashPlaced p lists x s.world _ tells
                ((focus p tidy s before after x e sound).0) own)),
      )

  theme-After :
      (s : System) (before after : List Session) (x y : Session) (u : World)
      (lists : List (List Text))
      → s.sessions ≡ before ++ x ∷ after
      → reload_feedbacks p lists x s.world ≡ (y, u)
      → Sound p s
      → After s (record { world = u; sessions = before ++ y ∷ after })
  theme-After s before after x y u lists e eq sound =
      let l =
        subst (λ (r : Session × World). Later s.world r.1) eq (reloaded-Later p lists x s.world) in
      let (cache, fits, others) = focus p tidy s before after x e sound in
      (
        l,
        λ tells v. put-AllPlaced p s before after x y u e l v (λ own.
            subst (λ (r : Session × World). HashPlaced r.1 r.0.feedback_hash) eq
              (reload_feedbacks-HashPlaced p lists x s.world _ tells fits cache own)),
      )

  Step-After : (s t : System) → Step p s t → Sound p s → After s t
  unfolding new_session
  Step-After s t (connects before after name e f) sound = rw f (
    Later-refl s.world,
    λ tells v. AllPlaced-put s.world before after (new_session name) tt (rw e at v),
  )
  Step-After s t (sets_up before after x y w fuel busy flag ready e h f) sound = rw f (
      mapped-After s before after x y w e (setup_cases p fuel busy flag ready x y s.world w h)
        sound)
  Step-After s t (changes_theme before after x y w fuel theme e h f) sound =
      let (lists, eq) = theme_changed_cases p fuel theme x y s.world w h in
      rw f (theme-After s before after x y w lists e eq sound)
  Step-After s t (ends before after x e f) sound =
      let l =
        destroy_session-Keeps p (Later s.world) (Later-Keeps p s.world) x s.world
          (Later-refl s.world) in
      rw f (
        l,
        λ tells v.
            Later-AllPlaced s.world _ (before ++ after) l
              ((AllPlaced-middle s.world before after x (rw e at v)).1),
      )
  Step-After s t (plays before after x name g w limit now timestamp e at h f) sound =
      let called = (play_feedback-Ledger p limit now timestamp g s.world w h sound.ledger).0 in
      let l =
        subst (Later s.world) (sym called)
          (tuned-Later s.world (record s.world { calls = w.calls }) refl refl refl) in
      rw f (l, λ tells v. Later-AllPlaced s.world w s.sessions l v)
  Step-After s t (manages u m f) sound =
      let l = managed-Later p s.world u m in
      rw f (l, λ tells v. Later-AllPlaced s.world u s.sessions l v)

  Reach-AllPlaced :
      (s : System)
      → TellsIndexes p (length s.world.backend_list)
      → Reach p s
      → AllPlaced s.world s.sessions
  Reach-AllPlaced s tells (start w v) = tt
  Reach-AllPlaced t tells (next s _ r st) =
      let (later, kept) = Step-After s t st (Reach-Sound p tidy s r) in
      let tells_before = subst (λ (bs : List ℕ). TellsIndexes p (length bs)) later.backends tells in
      kept tells_before (Reach-AllPlaced s tells_before r)

  slot_at :
      (w : World) (i j k : ℕ) (slots : List (Option ℕ)) (o : ℕ) (h : Handle)
      → k ≡ i + j
      → PlacedSlots w i slots
      → get_elem? slots j ≡ some (some o)
      → w.object o ≡ some h
      → h.backend_if ≡ get_elem? w.backend_list k
  slot_at w i j k [] o h at v e live = cc
  slot_at w i zero k (none ∷ slots) o h at v e live = cc
  slot_at w i zero k (some q ∷ slots) o h at v e live =
      let same : q ≡ o = cc in
      let here : k ≡ i = omega (arith, at) in rw here (v.0.1 h (rw same live))
  slot_at w i (suc j) k (q ∷ slots) o h at v e live =
      slot_at w (suc i) j k slots o h (omega (arith, at)) v.1 e live

  -- In every state that the event loop reaches, the handle in each slot of each feedback of a session
  -- belongs to the backend at the position of the slot, although handles are shared through the
  -- cache by a key of text: so `play`, which chooses the volume and the thread by the position, plays
  -- it on that backend. QString::number must tell the positions in the list of backends and -1 apart
  -- and write no '#', and a plugin must hand out nothing when a load fails.
  pub Reach-placed :
      (s : System) (before after : List Session) (x : Session) (name : Text) (f : Feedback)
      (i o : ℕ) (h : Handle)
      → TellsIndexes p (length s.world.backend_list)
      → Reach p s
      → s.sessions ≡ before ++ x ∷ after
      → lookup name x.feedback_hash ≡ some f
      → get_elem? f.feedback_handles i ≡ some (some o)
      → s.world.object o ≡ some h
      → h.backend_if ≡ get_elem? s.world.backend_list i
  Reach-placed s before after x name f i o h tells r e at slot live =
      let v = AllPlaced-middle s.world before after x (rw e at (Reach-AllPlaced s tells r)) in
      slot_at s.world 0 i i f.feedback_handles o h (omega arith)
        (lookup-HashPlaced s.world x.feedback_hash name f at v.0) slot live
