-- ===== src/Submission/Rollback.antt =====
-- What `persist_score_submission` of app/services/score_submission.py leaves when it raises: whatever the
-- database answers, the tables and the objects are as before.
use mathlib.Core.Path.{subst}
use eunga_py.Prelude.{
  ℕ, ◌≡◌, sym, ap, ◌∙◌, fun_ext, inl, inr, true, some, ◌==◌, ==_iff, ==-refl, Bool-cases,
}
use eunga_py.Prelude.Text.{Str, eq_str}
use eunga_py.Prelude.Text.Laws.{eq_str-eq}
use eunga_py.GameMode.{GameMode, value, of_value, of_value-value}
use eunga_py.Prelude.Options.{some_inj}
use eunga_py.Scores.Play.{Score}
use eunga_py.Submission.{
  Account, Counts, ModeData, State, modify, at_mode, at_player, at_map, on_player, set_stats,
}
use eunga_py.Submission.Keeps.{Keeps, IsFree}
use eunga_py.Submission.Persist.{set_id, set_counts}
use eunga_py.Submission.Transaction.{Snapshot, restore_player}

pub value-eq : (m k : GameMode) → (value m == value k) ≡ true → m ≡ k
value-eq m k e =
    some_inj
      (sym (of_value-value m) ∙ ap of_value ((==_iff (value m) (value k)).0 e) ∙ of_value-value k)

-- an assignment of what was there, and an assignment to the same key before another
module _ {A : Type 0} (d : GameMode → A) (m : GameMode) where
  pub at_mode_self : (v : A) → d m ≡ v → at_mode d m v ≡ d
  unfolding at_mode
  at_mode_self v e = fun_ext (λ k. elim (Bool-cases (value m == value k)) [
    | inl q ↦ rw q (sym e ∙ ap d (value-eq m k q))
    | inr q ↦ rw q
  ])

  pub at_mode-at_mode : (v w : A) → at_mode (at_mode d m v) m w ≡ at_mode d m w
  unfolding at_mode
  at_mode-at_mode v w =
      fun_ext (λ k. elim (Bool-cases (value m == value k)) [ inl q ↦ rw q | inr q ↦ rw q ])

  pub at_mode-same : (v : A) → at_mode d m v m ≡ v
  unfolding at_mode
  at_mode-same v = rw (==-refl (value m))

module _ (d : ℕ → Account) (u : ℕ) where
  pub at_player_self : (v : Account) → d u ≡ v → at_player d u v ≡ d
  unfolding at_player
  at_player_self v e = fun_ext (λ k. elim (Bool-cases (u == k)) [
    | inl q ↦ rw q (sym e ∙ ap d ((==_iff u k).0 q))
    | inr q ↦ rw q
  ])

  pub at_player-at_player : (v w : Account) → at_player (at_player d u v) u w ≡ at_player d u w
  unfolding at_player
  at_player-at_player v w =
      fun_ext (λ k. elim (Bool-cases (u == k)) [ inl q ↦ rw q | inr q ↦ rw q ])

  pub at_player-same : (v : Account) → at_player d u v u ≡ v
  unfolding at_player
  at_player-same v = rw (==-refl u)

module _ (d : Str → Counts) (md5 : Str) where
  pub at_map_self : at_map d md5 (d md5) ≡ d
  unfolding at_map
  at_map_self = fun_ext (λ k. elim (Bool-cases (eq_str md5 k)) [
    | inl q ↦ rw q (ap d (eq_str-eq md5 k q))
    | inr q ↦ rw q
  ])

  pub at_map-at_map : (v w : Counts) → at_map (at_map d md5 v) md5 w ≡ at_map d md5 w
  unfolding at_map
  at_map-at_map v w =
      fun_ext (λ k. elim (Bool-cases (eq_str md5 k)) [ inl q ↦ rw q | inr q ↦ rw q ])

-- `t` is what `st` has become inside the transaction: what the snapshot restores gives `st` again
pub record Near (st : State) (sn : Snapshot) (t : State) : Type 0 where
  pub whose : t.score ≡ record st.score { id = t.score.id }
  pub maps : at_map t.maps st.score.bmap.md5 sn.counts ≡ st.maps
  pub players :
      at_player t.players st.score.player (restore_player st.score sn (t.players st.score.player))
      ≡ st.players
  pub effects : t.effects ≡ st.effects

module _ (st : State) (sn : Snapshot) where
  pub Near-IsFree : IsFree (Near st sn)
  Near-IsFree = record {
    move = λ s t r p. record {
      whose = p.whose;
      maps = p.maps;
      players = p.players;
      effects = p.effects;
    };
  }

  pub set_id-Keeps : (i : ℕ) → Keeps (Near st sn) (modify (set_id i))
  set_id-Keeps i = record {
    apply = λ s p. record {
      whose = ap (λ (z : Score). record z { id = some i }) p.whose;
      maps = p.maps;
      players = p.players;
      effects = p.effects;
    };
  }

  pub set_counts-Keeps : (c : Counts) → Keeps (Near st sn) (modify (set_counts c))
  set_counts-Keeps c = record {
    apply = λ s p. record {
      whose = p.whose;
      maps =
          ap (λ (z : Score). at_map (at_map s.maps z.bmap.md5 c) st.score.bmap.md5 sn.counts)
            p.whose
          ∙ at_map-at_map s.maps st.score.bmap.md5 c sn.counts
          ∙ p.maps;
      players = p.players;
      effects = p.effects;
    };
  }

  restored_stats :
      (d : ModeData) (q : Account)
      → restore_player st.score sn (set_stats st.score.mode d q) ≡ restore_player st.score sn q
  restored_stats d q =
      ap
        (λ f. record q {
          stats = f;
          recent_scores = at_mode q.recent_scores st.score.mode sn.recent_score;
        })
        (at_mode-at_mode q.stats st.score.mode (some d) (some sn.stats))

  put_stats :
      (z : Score) (d : ModeData)
      → z.mode ≡ st.score.mode
      → (s : State) → Near st sn s
      → let f =
          at_player s.players s.score.player (set_stats z.mode d (s.players s.score.player)) in
        at_player f st.score.player (restore_player st.score sn (f st.score.player)) ≡ st.players
  put_stats z d e s p =
      let u = st.score.player in
      let q : Account = set_stats st.score.mode d (s.players u) in
      let whole : (v : ℕ) (m : GameMode) → Type 0 = λ v m.
        let f = at_player s.players v (set_stats m d (s.players v)) in
        at_player f u (restore_player st.score sn (f u)) ≡ st.players in
      subst (λ v. whole v z.mode) (sym (ap (λ (y : Score). y.player) p.whose))
        (subst (λ m. whole u m) (sym e)
          (at_player-at_player s.players u q
              (restore_player st.score sn (at_player s.players u q u))
            ∙ ap (λ (k : Account). at_player s.players u (restore_player st.score sn k))
                (at_player-same s.players u q)
            ∙ ap (at_player s.players u) (restored_stats d (s.players u))
            ∙ p.players))

  pub set_stats-Keeps :
      (z : Score) (d : ModeData)
      → z.mode ≡ st.score.mode
      → Keeps (Near st sn) (on_player (set_stats z.mode d))
  set_stats-Keeps z d e = record {
    apply = λ s p. record {
      whose = p.whose;
      maps = p.maps;
      players = put_stats z d e s p;
      effects = p.effects;
    };
  }
