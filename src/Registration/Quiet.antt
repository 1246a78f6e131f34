-- ===== src/Registration/Quiet.antt =====
-- Steps that write events and draw ids only, as those of
-- veriproof/services/registration_service.py before its transaction, and their composition.
use veri_proof_hackerton.Prelude.{
  String, true, Option, none, some, ◌≡◌, refl, ◌∙◌, find_sound, sym, ◌==◌, eq_iff,
}
use mathlib.Core.Path.{subst}
use veri_proof_hackerton.Models.{IpAsset, asset_by_id, World}
use veri_proof_hackerton.Events.{SameRows, SameRows-refl, SameRows-trans}
use veri_proof_hackerton.Flow.{
  Fault, Flow, pure, raise, from_option, ◌>>=◌, rescue, Ends, Ends-bind, Ends-rescue, Ends-map,
}
use veri_proof_hackerton.Registration.{RegistrationMetadata, Office, is_royalty_share, written}

-- All tables but the log of events are the same.
pub record SameOffice (a b : Office) : Type 0 where
  pub rows : SameRows a.world b.world
  pub drafts : a.drafts ≡ b.drafts
  pub images : a.images ≡ b.images
  pub components : a.components ≡ b.components
  pub subscriptions : a.subscriptions ≡ b.subscriptions
  pub charges : a.charges ≡ b.charges
  pub intents : a.intents ≡ b.intents

pub SameOffice-refl : (o : Office) → SameOffice o o
SameOffice-refl o = record {
  rows = SameRows-refl o.world;
  drafts = refl;
  images = refl;
  components = refl;
  subscriptions = refl;
  charges = refl;
  intents = refl;
}

pub SameOffice-trans : (a b c : Office) → SameOffice a b → SameOffice b c → SameOffice a c
SameOffice-trans a b c h k = record {
  rows = SameRows-trans a.world b.world c.world h.rows k.rows;
  drafts = h.drafts ∙ k.drafts;
  images = h.images ∙ k.images;
  components = h.components ∙ k.components;
  subscriptions = h.subscriptions ∙ k.subscriptions;
  charges = h.charges ∙ k.charges;
  intents = h.intents ∙ k.intents;
}

pub with_world-SameOffice :
    (o : Office) (w : World) → SameRows w o.world → SameOffice (record o { world = w }) o
with_world-SameOffice o w same = record {
  rows = same;
  drafts = refl;
  images = refl;
  components = refl;
  subscriptions = refl;
  charges = refl;
  intents = refl;
}

module _ {A : Type 0} where
  -- A step that leaves the tables alone, and what is known of its result.
  pub record Quiet (F : Office → A → Type 0) (m : Flow Office A) : Type 0 where
    pub run : (o : Office) → Ends (λ a o'. SameOffice o' o × F o a) (λ o'. SameOffice o' o) (m o)

  abbrev pub Known : Office → A → Type 0
  Known o a = Unit

  -- A quiet step, then what follows, counted from the tables at the start.
  pub chain :
      {B : Type 0} (start o : Office) (m : Flow Office A) (k : A → Flow Office B)
      (F : Office → A → Type 0) (P : B → Office → Type 0) (E : Office → Type 0)
      → SameOffice o start
      → Quiet F m
      → ((o' : Office) → SameOffice o' start → E o')
      → ((a : A) (o' : Office) → SameOffice o' start → F o a → Ends P E (k a o'))
      → Ends P E ((m >>= k) o)
  chain start o m k F P E same quiet e next =
      Ends-bind m k o (λ a o'. SameOffice o' o × F o a) P E (λ o'. SameOffice o' o) (quiet.run o)
        (λ o' h. e o' (SameOffice-trans o' o start h same))
        (λ a o' h. next a o' (SameOffice-trans o' o start h.0 same) h.1)

  pub pure-Quiet : (a : A) → Quiet Known (pure a)
  unfolding pure
  pure-Quiet a = record { run = λ o. (SameOffice-refl o, tt) }

  pub raise-Quiet : (F : Office → A → Type 0) (f : Fault) → Quiet F (raise f)
  unfolding raise
  raise-Quiet F f = record { run = λ o. SameOffice-refl o }

  pub from_option-Quiet :
      (f : Fault) (answer : Option A) → Quiet (λ o a. answer ≡ some a) (from_option f answer)
  unfolding from_option
  from_option-Quiet f none = record { run = λ o. SameOffice-refl o }
  from_option-Quiet f (some a) = record { run = λ o. (SameOffice-refl o, refl) }

-- Two quiet steps.
pub bind-Quiet :
    {A B : Type 0} (m : Flow Office A) (k : A → Flow Office B) (F : Office → A → Type 0)
    → Quiet F m
    → ((a : A) → Quiet Known (k a))
    → Quiet Known (m >>= k)
bind-Quiet m k F first next = record {
  run = λ o.
      chain o o m k F (λ b o'. SameOffice o' o × Unit) (λ o'. SameOffice o' o) (SameOffice-refl o)
        first (λ o' h. h)
        (λ a o' h known.
          Ends-map (k a o') (λ b o''. SameOffice o'' o' × Unit) (λ b o''. SameOffice o'' o × Unit)
            (λ o''. SameOffice o'' o') (λ o''. SameOffice o'' o) ((next a).run o')
            (λ b o'' both. (SameOffice-trans o'' o' o both.0 h, tt))
            (λ o'' same. SameOffice-trans o'' o' o same h));
}

-- A quiet step whose faults are handled by a quiet step.
pub rescue-Quiet :
    {A : Type 0} (m : Flow Office A) (k : Fault → Flow Office A)
    → Quiet Known m
    → ((f : Fault) → Quiet Known (k f))
    → Quiet Known (rescue m k)
rescue-Quiet m k first next = record {
  run = λ o.
      Ends-rescue m k o (λ a o'. SameOffice o' o × Unit) (λ o'. SameOffice o' o)
        (λ o'. SameOffice o' o) (first.run o)
        (λ f o' same.
          Ends-map (k f o') (λ a o''. SameOffice o'' o' × Unit) (λ a o''. SameOffice o'' o × Unit)
            (λ o''. SameOffice o'' o') (λ o''. SameOffice o'' o) ((next f).run o')
            (λ a o'' both. (SameOffice-trans o'' o' o both.0 same, tt))
            (λ o'' h. SameOffice-trans o'' o' o h same));
}

pub written-SameOffice :
    (o : Office) (answer : Option World)
    → ((w : World) → answer ≡ some w → SameRows w o.world)
    → Ends (λ a o'. SameOffice o' o × Known o a) (λ o'. SameOffice o' o) (written o answer)
written-SameOffice o none same = SameOffice-refl o
written-SameOffice o (some w) same = (with_world-SameOffice o w (same w refl), tt)

-- A parent that was found is stored and its share is in range; without one, no row was asked for.
abbrev pub IsParent : RegistrationMetadata → Office → Option IpAsset → Type 0
IsParent metadata o none = Unit
IsParent metadata o (some parent) =
    (asset_by_id parent.id o.world ≡ some parent)
    × (is_royalty_share metadata.royalty_share_bps ≡ true)

pub asset_by_own_id :
    (a : IpAsset) (id : String) (w : World)
    → asset_by_id id w ≡ some a
    → asset_by_id a.id w ≡ some a
asset_by_own_id a id w e =
    let own : a.id ≡ id = (eq_iff a.id id).0 (find_sound (λ x. x.id == id) w.assets a e) in
    subst (λ k. asset_by_id k w ≡ some a) (sym own) e
