-- ===== src/Audit/Restoring/Parting.antt =====
-- The events that a clean-up takes and the ones that it leaves are all the events.
use archivon.Prelude.{
  ◌+◌, ◌≤◌, ◌≡◌, refl, ap, ◌∙◌, sym, Bool, true, false, not, List, [], ◌∷◌, count, filter, any,
  arith, ltb, Bool-cases, inl, inr,
}
use archivon.Text.Trim.{Text, text_eq, text_eq_iff, text_eq_refl}
use archivon.Audit.Events.{Event, has_id, without, sort_events, insert_by_time}

-- No id comes twice.
abbrev pub Distinct : List Event → Type 0
Distinct es = (i : Text) → count (has_id i) es ≤ 1

count-insert_by_time :
    (p : Event → Bool) (e : Event) (fs : List Event)
    → count p (insert_by_time e fs) ≡ count p (e ∷ fs)
unfolding insert_by_time
count-insert_by_time p e [] = refl
count-insert_by_time p e (f ∷ fs) = ground (arith, count-insert_by_time p e fs)

pub count-sort_events : (p : Event → Bool) (es : List Event) → count p (sort_events es) ≡ count p es
unfolding sort_events
count-sort_events p [] = refl
count-sort_events p (e ∷ es) =
    count-insert_by_time p e (sort_events es) ∙ ground (arith, count-sort_events p es)

-- A test, and the rest.
pub count-filter :
    (p q : Event → Bool) (es : List Event)
    → count p (filter (λ e. not (q e)) es) + count p (filter q es) ≡ count p es
count-filter p q [] = refl
count-filter p q (e ∷ es) = ground (arith, count-filter p q es)

pub any-count : (p : Event → Bool) (es : List Event) → any p es ≡ ltb 0 (count p es)
any-count p [] = refl
any-count p (e ∷ es) = ground (arith, any-count p es)

text_eq_sym : (s t : Text) → text_eq s t ≡ false → text_eq t s ≡ false
text_eq_sym s t h = ground (arith, h, text_eq_iff s t, text_eq_iff t s)

-- An id that no event has takes nothing away.
without_more :
    (e : Event) (gone es : List Event)
    → count (has_id e.id) es ≡ 0
    → without (e ∷ gone) es ≡ without gone es
unfolding without
without_more e gone [] h = refl
without_more e gone (x ∷ es) h =
    ground
      (arith, without_more e gone es (ground (arith, h)), text_eq_sym x.id e.id (ground (arith, h)))

count-filter_le : (p q : Event → Bool) (es : List Event) → count p (filter q es) ≤ count p es
count-filter_le p q es = omega (arith, count-filter p q es)

no_twin : (e : Event) (es : List Event) → Distinct (e ∷ es) → count (has_id e.id) es ≡ 0
no_twin e es h = ground (arith, h e.id, text_eq_refl e.id)

no_twin_left :
    (q : Event → Bool) (e : Event) (es : List Event)
    → Distinct (e ∷ es)
    → any (has_id e.id) (filter q es) ≡ false
no_twin_left q e es h = ground (
  arith,
  any-count (has_id e.id) (filter q es),
  count-filter_le (has_id e.id) q es,
  no_twin e es h,
)

pub tail-Distinct : (e : Event) (es : List Event) → Distinct (e ∷ es) → Distinct es
tail-Distinct e es h i = ground (arith, h i)

filter-true :
    (q : Event → Bool) (e : Event) (es : List Event)
    → q e ≡ true
    → filter q (e ∷ es) ≡ e ∷ filter q es
filter-true q e es k = rw (k) refl

filter-false :
    (q : Event → Bool) (e : Event) (es : List Event) → q e ≡ false → filter q (e ∷ es) ≡ filter q es
filter-false q e es k = rw (k) refl

without_head :
    (e : Event) (gone es : List Event)
    → any (has_id e.id) gone ≡ true
    → without gone (e ∷ es) ≡ without gone es
unfolding without
without_head e gone es k = rw (k) refl

without_kept :
    (e : Event) (gone es : List Event)
    → any (has_id e.id) gone ≡ false
    → without gone (e ∷ es) ≡ e ∷ without gone es
unfolding without
without_kept e gone es k = rw (k) refl

without-filter :
    (q : Event → Bool) (es : List Event)
    → Distinct es
    → without (filter q es) es ≡ filter (λ e. not (q e)) es
unfolding without
without-filter q [] h = refl
without-filter q (e ∷ es) h = elim (Bool-cases (q e)) [
  | inl k ↦
      ap (λ g. without g (e ∷ es)) (filter-true q e es k)
      ∙ without_head e (e ∷ filter q es) es (ground (arith, text_eq_refl e.id))
      ∙ without_more e (filter q es) es (no_twin e es h)
      ∙ without-filter q es (tail-Distinct e es h)
      ∙ sym (filter-false (λ x. not (q x)) e es (ap not k))
  | inr k ↦
      ap (λ g. without g (e ∷ es)) (filter-false q e es k)
      ∙ without_kept e (filter q es) es (no_twin_left q e es h)
      ∙ ap (λ rest. e ∷ rest) (without-filter q es (tail-Distinct e es h))
      ∙ sym (filter-true (λ x. not (q x)) e es (ap not k))
]

-- The order of what is taken does not matter.
without_agree :
    (g h : List Event)
    → ((i : Text) → any (has_id i) g ≡ any (has_id i) h)
    → (es : List Event) → without g es ≡ without h es
unfolding without
without_agree g h k [] = refl
without_agree g h k (e ∷ es) = ground (arith, k e.id, without_agree g h k es)

any-sort_events : (p : Event → Bool) (es : List Event) → any p (sort_events es) ≡ any p es
any-sort_events p es =
    any-count p (sort_events es) ∙ ap (ltb 0) (count-sort_events p es) ∙ sym (any-count p es)

-- What is left and what is taken, together, are what there was.
pub count-without :
    (p q : Event → Bool) (es : List Event)
    → Distinct es
    → count p (without (sort_events (filter q es)) es) + count p (sort_events (filter q es))
      ≡ count p es
count-without p q es h = omega (
  arith,
  ap (count p) (
      without_agree (sort_events (filter q es)) (filter q es)
        (λ i. any-sort_events (has_id i) (filter q es)) es
      ∙ without-filter q es h),
  count-sort_events p (filter q es),
  count-filter p q es,
)
