-- ===== src/Scheduler/Paging.antt =====
-- Two previews in a row of dispatcher/src/scheduler/calculator.ts: the second begins at the cursor of
-- the first.
use dona.Prelude.{ℕ, String, Option, some, ◌≡◌, subst, ◌⊎◌, inl, inr, ◌≤◌, ◌<◌, All}
use dona.Exec.{ok}
use dona.Scheduler.Timezone.{Zone}
use dona.Scheduler.Definition.{ScheduleDefinition}
use dona.Scheduler.Calculator.{OccurrencePreview, calculate_occurrences}
use dona.Scheduler.Order.{Has, All-map}
use dona.Scheduler.Padding.{HasSmallOffsets}
use dona.Scheduler.Preview.{
  IsPreview, IsScheduled, PreviewOutcome, calculate_occurrences-PreviewOutcome,
}

module _ (zones : String → Option Zone) (d : ScheduleDefinition) where
  -- Nothing of the window is between the pages, and nothing is on both.
  pub record Pages (after before c : ℕ) (p q : OccurrencePreview) : Type 0 where
    pub nothing_lost :
        (u : ℕ)
        → IsScheduled zones d u
        → after < u
        → u ≤ before
        → Has u p.occurrences ⊎ (Has u q.occurrences ⊎ ((e : ℕ) × (q.cursor ≡ some e) × (e < u)))
    pub first_before : All (λ o. o.occurrence_at ≤ c) p.occurrences
    pub second_after : All (λ o. c < o.occurrence_at) q.occurrences

  returned_page :
      (after before limit : ℕ) (p : OccurrencePreview)
      → HasSmallOffsets zones
      → 0 < limit
      → calculate_occurrences zones d after before limit ≡ ok p
      → IsPreview zones d after before limit p
  returned_page after before limit p small pos_limit e =
      subst (PreviewOutcome zones d after before limit) e
        (calculate_occurrences-PreviewOutcome zones d after before limit small pos_limit)

  -- Where the offsets of the zones are less than a day and the limits are not 0, a page that has a
  -- cursor and the page calculated from the cursor on, to the same end, lose no scheduled instant of
  -- the window up to the second cursor, and the second page lists only instants after the cursor,
  -- the first only others.
  pub calculate_occurrences-Pages :
      (after before limit next c : ℕ) (p q : OccurrencePreview)
      → HasSmallOffsets zones
      → 0 < limit
      → 0 < next
      → calculate_occurrences zones d after before limit ≡ ok p
      → p.cursor ≡ some c
      → calculate_occurrences zones d c before next ≡ ok q
      → Pages after before c p q
  calculate_occurrences-Pages after before limit next c p q small pos_limit pos_next hp hc hq =
      let first = returned_page after before limit p small pos_limit hp in
      let second = returned_page c before next q small pos_next hq in
      record {
        nothing_lost = λ u s low high. elim (first.complete u s low high) [
          | inl h ↦ inl h
          | inr (e, he, l) ↦ inr (second.complete u s (later_than e u he l) high)
        ];
        first_before = first.latest c hc;
        second_after = All-map (λ o w. w.0) q.occurrences second.in_the_window;
      }
    where
      later_than : (e u : ℕ) → p.cursor ≡ some e → e < u → c < u
      later_than e u he l = subst (λ x. x < u) (same e he) l
        where
          same : (e : ℕ) → p.cursor ≡ some e → e ≡ c
          same e he = cc
