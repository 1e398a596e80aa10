-- ===== src/Dummies/Memory.antt =====
-- The memory of the dummy backends, against what they have handed out and not been given back.
use touch_feedback.Base.{
  ℕ, ◌+◌, ◌-◌, ◌≤◌, ◌<◌, ◌≡◌, refl, none, some, arith, ◌==◌, if◌then◌else◌, Bool-cases, inl, inr,
  ap, ltb, ltb→lt,
}
use touch_feedback.Base.Text.{Text}
use touch_feedback.Backend.Ledger.{same, held}
use touch_feedback.Dummies.{Strings, allocate, free}

-- `had b a` counts how often the backend b has handed out a, less how often it was given back.
pub record Owned (had : ℕ → ℕ → ℕ) (m : Strings) : Type 0 where
  pub fresh : (a : ℕ) → m.next ≤ a → m.content a ≡ none
  pub live : (b a : ℕ) → 0 < had b a → (had b a ≡ 1) × ((text : Text) × (m.content a ≡ some text))
  pub one : (b c a : ℕ) → 0 < had b a → 0 < had c a → b ≡ c
  pub found : (a : ℕ) (text : Text) → m.content a ≡ some text → (b : ℕ) × (0 < had b a)

pub Owned-ext :
    (had has : ℕ → ℕ → ℕ) (m : Strings)
    → ((b a : ℕ) → has b a ≡ had b a)
    → Owned had m
    → Owned has m
Owned-ext had has m e v = record {
  fresh = v.fresh;
  live = λ b a h. rw (e b a) (v.live b a (rw (e b a) at h));
  one = λ b c a h k. v.one b c a (rw (e b a) at h) (rw (e c a) at k);
  found = λ a text h. let f = v.found a text h in (f.0, rw (e f.0 a) (f.1));
}

had_none :
    (had : ℕ → ℕ → ℕ) (m : Strings) (b a : ℕ) → m.content a ≡ none → Owned had m → had b a ≡ 0
had_none had m b a gone v = elim (Bool-cases (ltb 0 (had b a))) [
  | inl some_had ↦ cc (gone, ((v.live b a (ltb→lt 0 (had b a) some_had)).1).1)
  | inr none_had ↦ ground arith
]

pub allocate-Owned :
    (had has : ℕ → ℕ → ℕ) (c : ℕ) (text : Text) (m : Strings)
    → ((b a : ℕ) → has b a ≡ had b a + same b a c (some m.next))
    → Owned had m
    → Owned has (allocate text m).1
unfolding allocate
allocate-Owned had has c text m e v =
    let unused : (b : ℕ) → had b m.next ≡ 0 =
      λ b. had_none had m b m.next (v.fresh m.next (omega arith)) v in
    record {
      fresh = λ a above. ground (arith, v.fresh a);
      live = λ b a h. elim (Bool-cases (m.next == a)) [
        | inl new ↦
            let at : m.next ≡ a = ground arith in
            (ground (arith, e b a, at, unused b, ap (had b) at), (text, rw new refl))
        | inr old ↦
            let was = v.live b a (ground (arith, e b a)) in
            (ground (arith, e b a, was.0), (was.1.0, rw old (was.1.1)))
      ];
      one = λ b d a h k. elim (Bool-cases (m.next == a)) [
        | inl new ↦
            let at : m.next ≡ a = ground arith in
            ground (arith, e b a, e d a, unused b, unused d, ap (had b) at, ap (had d) at)
        | inr old ↦ ground (arith, e b a, e d a, v.one b d a)
      ];
      found = λ a t h. elim (Bool-cases (m.next == a)) [
        | inl new ↦ (c, ground (arith, e c a))
        | inr old ↦ let f = v.found a t (rw old at h) in (f.0, ground (arith, e f.0 a, f.1))
      ];
    }

pub free-Owned :
    (had has : ℕ → ℕ → ℕ) (c a : ℕ) (m : Strings)
    → 0 < had c a
    → ((b d : ℕ) → has b d ≡ had b d - same b d c (some a))
    → Owned had m
    → (u : Strings) × (free a m ≡ some u) × Owned has u
unfolding free
free-Owned had has c a m held e v =
    let was = v.live c a held in
    (
      record m { content = λ d. if a == d then none else m.content d },
      rw (was.1.1, free) refl,
      record {
        fresh = λ d above. ground (arith, v.fresh d above);
        live = λ b d h. elim (Bool-cases (a == d)) [
          | inl hit ↦
              let at : a ≡ d = ground arith in
              absurd
                (ground (arith, e b d, at, was.0, v.live b d, v.one b c d, held, ap (had c) at))
          | inr other ↦
              let old = v.live b d (ground (arith, e b d)) in
              (ground (arith, e b d, old.0), (old.1.0, rw other (old.1.1)))
        ];
        one = λ b f d h k. ground (arith, e b d, e f d, v.one b f d);
        found = λ d t h. elim (Bool-cases (a == d)) [
          | inl hit ↦ cc (rw hit at h)
          | inr other ↦ let f = v.found d t (rw other at h) in (f.0, ground (arith, e f.0 d, f.1))
        ];
      },
    )
