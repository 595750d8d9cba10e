-- ===== src/Tickets/Page/Session/Draft.antt =====
-- When the text of a reply that is being written is lost.
use ahmed_sila.Base.{◌≡◌, refl, ◌∙◌, ◌⊎◌, inl, inr, Bool, true, false, Option, none, some, []}
use ahmed_sila.Text.{Text}
use ahmed_sila.Markup.{Gesture, gives}
use ahmed_sila.Tickets.Screen.{view}
use ahmed_sila.Tickets.Page.{Event, page}
use ahmed_sila.Tickets.Page
use ahmed_sila.Tickets.Page.Session.{
  Visit, leave, redraw, is_thread, act, ended, on_replied, on_event, Happening, gesture,
  list_answered, detail_answered, team_answered, replied, assigned, solved, happen,
}

abbrev IsAway : Visit → Type 0
IsAway v = (v.shown.draft ≡ []) × (is_thread (view v.shown.screen v.shown.list) ≡ false)

leave_lem :
    (b : Bool) (v : Visit)
    → is_thread (view v.shown.screen v.shown.list) ≡ b
    → ((leave b v).shown.draft ≡ v.shown.draft) ⊎ IsAway (leave b v)
leave_lem true v e = inl refl
leave_lem false v e = inr (refl, e)

redraw_lem : (v : Visit) → ((redraw v).shown.draft ≡ v.shown.draft) ⊎ IsAway (redraw v)
unfolding redraw
redraw_lem v = leave_lem (is_thread (view v.shown.screen v.shown.list)) v refl

abbrev text_after : Event → Text → Text
text_after (Page.typed t) draft = t
text_after _ draft = draft

act-draft : (e : Event) (v : Visit) → (act e v).shown.draft ≡ text_after e v.shown.draft
unfolding act
act-draft (Page.typed t) v = refl
act-draft _ v = refl

module _ (date date_time : Text → Text) where
  -- How the text that is being written can come to be another one.
  abbrev pub Rewritten : Happening → Visit → Visit → Type 0
  Rewritten h v v' =
      (v'.shown.draft ≡ v.shown.draft)
      ⊎ ((g : Gesture) × (t : Text) × (h ≡ gesture g)
          × (gives g (page date date_time v.shown) ≡ some (Page.typed t))
          × (v'.shown.draft ≡ t))
      ⊎ ((v'.shown.draft ≡ []) × (h ≡ replied true) × (v.shown.busy.sending ≡ true))
      ⊎ IsAway v'

  module _ (g : Gesture) (v : Visit) where
    event-Rewritten :
        (e : Event)
        → gives g (page date date_time v.shown) ≡ some e
        → Rewritten (gesture g) v (redraw (act e v))
    event-Rewritten e h = elim (redraw_lem (act e v)) [
      | inl same ↦ at_event e h (same ∙ act-draft e v)
      | inr left ↦ inr (inr (inr left))
    ]
      where
        at_event :
            (e : Event)
            → gives g (page date date_time v.shown) ≡ some e
            → (redraw (act e v)).shown.draft ≡ text_after e v.shown.draft
            → Rewritten (gesture g) v (redraw (act e v))
        at_event (Page.typed t) h same = inr (inl (g, t, refl, h, same))
        at_event (Page.set_status f) h same = inl same
        at_event _ h same = inl same

    gesture-Rewritten :
        (o : Option Event)
        → gives g (page date date_time v.shown) ≡ o
        → Rewritten (gesture g) v (on_event date date_time o v)
    gesture-Rewritten none h = inl refl
    gesture-Rewritten (some e) h = event-Rewritten e h

  ended-Rewritten :
      (sending success : Bool) (v : Visit)
      → v.shown.busy.sending ≡ sending
      → Rewritten (replied success) v (ended sending success v)
  ended-Rewritten false success v e = inl refl
  ended-Rewritten true false v e = inl refl
  ended-Rewritten true true v e = inr (inr (inl (refl, refl, e)))

  -- The text of a reply that is being written becomes another one only when it is typed into the field of the
  -- page as it is drawn, when the reply that is under way has succeeded, or when no thread is on the page
  -- any more; in the last two cases it is empty.
  pub happen-Rewritten : (h : Happening) (v : Visit) → Rewritten h v (happen date date_time h v)
  unfolding happen on_replied
  happen-Rewritten (gesture g) v =
      gesture-Rewritten g v (gives g (page date date_time v.shown)) refl
  happen-Rewritten (list_answered q) v =
      elim (redraw_lem (record v { shown = record v.shown { list = q } })) [
        | inl same ↦ inl same
        | inr left ↦ inr (inr (inr left))
      ]
  happen-Rewritten (detail_answered id q) v = inl refl
  happen-Rewritten (team_answered team) v = inl refl
  happen-Rewritten (replied success) v = ended-Rewritten v.shown.busy.sending success v refl
  happen-Rewritten assigned v = inl refl
  happen-Rewritten solved v = inl refl
