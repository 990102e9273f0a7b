-- ===== src/Submit/Manager/Keep.antt =====
-- Steps that keep a property of the journal, whatever the network answers: the rules by which a
-- step inherits it from its parts.
use tree_miner_amd.Prelude.{
  ℕ,
  ◌≡◌,
  sym,
  subst,
  Bool,
  true,
  false,
  Option,
  if◌then◌else◌,
  Text.{Text},
}
use tree_miner_amd.Core.Types.{Classification, FindKind}
use tree_miner_amd.Submit.Manager.State.{
  JournalAccess, Manager, Metrics, Event, Step, JournalResult, ok, err, continue, pure, gets, asks,
  calls, modify, emit, count, ◌>>=◌,
}

-- The calls of the interface keep the property.
pub record Guards {J : Type 0} (P : J → Type 0) (ja : JournalAccess J) : Type 0 where
  pub by_fetch :
      (j : J) (kind : FindKind) (now : Text) (limit : ℕ)
      → P j
      → P (ja.fetch_eligible_of_kind j kind now limit).0
  pub by_awaiting :
      (j : J) (now : Text) (limit : ℕ) → P j → P (ja.fetch_awaiting_confirmation j now limit).0
  pub by_counts : (j : J) → P j → P (ja.counts j).0
  pub by_attempt :
      (j : J) (id : ℕ) (c : Classification) (http : Option ℕ) (body : Text) (next : Option Text)
      (now : Text)
      → P j
      → P (ja.record_attempt j id c http body next now).0
  pub by_unpark : (j : J) (d : ℕ) → P j → P (ja.unpark_for_difficulty j d).0
  pub by_window : (j : J) (m : ℕ) → P j → P (ja.unpark_xuni_for_window j m).0
  pub by_difficulty : (j : J) (d : ℕ) (at : Text) → P j → P (ja.record_difficulty j d at).0

pub record Keeps {J N A : Type 0} (P : J → Type 0) (m : Step J N A) : Type 0 where
  pub keeps : (s : Manager J N) → P s.journal → P (m s).0.journal

module _ {J N A B : Type 0} {P : J → Type 0} where
  pub bind-Keeps :
      {m : Step J N A} {f : A → Step J N B}
      → Keeps P m
      → ((a : A) → Keeps P (f a))
      → Keeps P (m >>= f)
  unfolding ◌>>=◌
  bind-Keeps {m} {f} h k = record { keeps = λ s p. after (m s) (h.keeps s p) }
    where
      after : (q : Manager J N × JournalResult A) → P q.0.journal → P (continue q.1 f q.0).0.journal
      after (s', ok a) p = (k a).keeps s' p
      after (s', err x) p = p

module _ {J N A : Type 0} {P : J → Type 0} where
  pub pure-Keeps : (a : A) → Keeps P (pure {J = J} {N = N} a)
  unfolding ◌>>=◌
  pure-Keeps a = record { keeps = λ s p. p }

  pub gets-Keeps : (f : Manager J N → A) → Keeps P (gets f)
  unfolding ◌>>=◌
  gets-Keeps f = record { keeps = λ s p. p }

  pub calls-Keeps : (f : N → N × A) → Keeps P (calls {J = J} f)
  unfolding ◌>>=◌
  calls-Keeps f = record { keeps = λ s p. p }

  pub asks-Keeps :
      (f : J → J × JournalResult A) → ((j : J) → P j → P (f j).0) → Keeps P (asks {N = N} f)
  unfolding ◌>>=◌
  asks-Keeps f h = record { keeps = λ s p. h s.journal p }

  pub if-Keeps :
      (b : Bool) {m n : Step J N A} → Keeps P m → Keeps P n → Keeps P (if b then m else n)
  if-Keeps true h k = h
  if-Keeps false h k = k

module _ {J N : Type 0} {P : J → Type 0} where
  pub modify-Keeps :
      (f : Manager J N → Manager J N)
      → ((s : Manager J N) → (f s).journal ≡ s.journal)
      → Keeps P (modify f)
  unfolding ◌>>=◌
  modify-Keeps f h = record { keeps = λ s p. subst P (sym (h s)) p }

  pub count-Keeps : (f : Metrics → Metrics) → Keeps P (count {J = J} {N = N} f)
  unfolding ◌>>=◌
  count-Keeps f = record { keeps = λ s p. p }

  pub emit-Keeps : (e : Event) → Keeps P (emit {J = J} {N = N} e)
  unfolding ◌>>=◌
  emit-Keeps e = record { keeps = λ s p. p }
