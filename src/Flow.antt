-- ===== src/Flow.antt =====
-- A use case that reads and writes the tables and may raise: what was written before a raise stays
-- written, unless the steps stand in one transaction.
use veri_proof_hackerton.Prelude.{ℕ, String, Option, none, some}

-- `RegistrationError` by its code and status, `SubscriptionRequiredError`, or any other exception.
pub data Fault : Type 0 where
  rejected : String → ℕ → Fault
  subscription_required raised : Fault

pub data Result (A : Type 0) : Type 0 where
  done : A → Result A
  failed : Fault → Result A

abbrev pub Flow : Type 0 → Type 0 → Type 0
Flow S A = S → Result A × S

module _ {S : Type 0} where
  unfoldable pub pure : {A : Type 0} → A → Flow S A
  pure a s = (done a, s)

  unfoldable pub raise : {A : Type 0} → Fault → Flow S A
  raise f s = (failed f, s)

  unfoldable pub modify : (S → S) → Flow S (Unit {0})
  modify f s = (done tt, f s)

  -- A call from outside that answers, or raises.
  unfoldable pub from_option : {A : Type 0} → Fault → Option A → Flow S A
  unfolding pure raise
  from_option f none = raise f
  from_option f (some a) = pure a

  abbrev continue : {A B : Type 0} → (A → Flow S B) → Result A × S → Result B × S
  continue k (done a, s) = k a s
  continue k (failed f, s) = (failed f, s)

  infixl 10 ◌>>=◌ ◌>>◌
  unfoldable pub ◌>>=◌ : {A B : Type 0} → Flow S A → (A → Flow S B) → Flow S B
  (m >>= k) s = continue k (m s)

  abbrev pub ◌>>◌ : {A B : Type 0} → Flow S A → Flow S B → Flow S B
  m >> n = m >>= λ _. n

  abbrev rolled_back : {A : Type 0} → S → Result A × S → Result A × S
  rolled_back s (done a, s') = (done a, s')
  rolled_back s (failed f, s') = (failed f, s)

  -- `with transaction.atomic():`
  unfoldable pub atomic : {A : Type 0} → Flow S A → Flow S A
  atomic m s = rolled_back s (m s)

  abbrev or_rescued : {A : Type 0} → (Fault → Flow S A) → Result A × S → Result A × S
  or_rescued k (done a, s) = (done a, s)
  or_rescued k (failed f, s) = k f s

  -- `try: m except Exception: k`
  unfoldable pub rescue : {A : Type 0} → Flow S A → (Fault → Flow S A) → Flow S A
  rescue m k s = or_rescued k (m s)

  -- What holds of a result with the tables after it, or of the tables after a fault.
  abbrev pub Ends : {A : Type 0} → (A → S → Type 0) → (S → Type 0) → Result A × S → Type 0
  Ends P E (done a, s) = P a s
  Ends P E (failed f, s) = E s

  pub Ends-pure :
      {A : Type 0} (a : A) (s : S) (P : A → S → Type 0) (E : S → Type 0)
      → P a s
      → Ends P E (pure a s)
  unfolding pure
  Ends-pure a s P E h = h

  pub Ends-raise :
      {A : Type 0} (f : Fault) (s : S) (P : A → S → Type 0) (E : S → Type 0)
      → E s
      → Ends P E (raise f s)
  unfolding raise
  Ends-raise f s P E h = h

  pub Ends-modify :
      (g : S → S) (s : S) (P : Unit {0} → S → Type 0) (E : S → Type 0)
      → P tt (g s)
      → Ends P E (modify g s)
  unfolding modify
  Ends-modify g s P E h = h

  pub Ends-from_option :
      {A : Type 0} (f : Fault) (answer : Option A) (s : S) (P : A → S → Type 0) (E : S → Type 0)
      → ((a : A) → P a s)
      → E s
      → Ends P E (from_option f answer s)
  unfolding from_option
  Ends-from_option f none s P E h e = e
  Ends-from_option f (some a) s P E h e = h a

  pub Ends-map :
      {A : Type 0} (r : Result A × S) (P Q : A → S → Type 0) (E F : S → Type 0)
      → Ends P E r
      → ((a : A) (s : S) → P a s → Q a s)
      → ((s : S) → E s → F s)
      → Ends Q F r
  Ends-map (done a, s) P Q E F h f g = f a s h
  Ends-map (failed x, s) P Q E F h f g = g s h

  Ends-continue :
      {A B : Type 0} (k : A → Flow S B) (r : Result A × S) (Q : A → S → Type 0) (P : B → S → Type 0)
      (E F : S → Type 0)
      → Ends Q F r
      → ((s : S) → F s → E s)
      → ((a : A) (s : S) → Q a s → Ends P E (k a s))
      → Ends P E (continue k r)
  Ends-continue k (done a, s) Q P E F h e next = next a s h
  Ends-continue k (failed f, s) Q P E F h e next = e s h

  -- A step, and then what follows it.
  pub Ends-bind :
      {A B : Type 0} (m : Flow S A) (k : A → Flow S B) (s : S) (Q : A → S → Type 0)
      (P : B → S → Type 0) (E F : S → Type 0)
      → Ends Q F (m s)
      → ((s' : S) → F s' → E s')
      → ((a : A) (s' : S) → Q a s' → Ends P E (k a s'))
      → Ends P E ((m >>= k) s)
  unfolding ◌>>=◌
  Ends-bind m k s Q P E F = Ends-continue k (m s) Q P E F

  Ends-rolled_back :
      {A : Type 0} (s : S) (r : Result A × S) (P : A → S → Type 0) (E F : S → Type 0)
      → Ends P F r
      → E s
      → Ends P E (rolled_back s r)
  Ends-rolled_back s (done a, s') P E F h e = h
  Ends-rolled_back s (failed f, s') P E F h e = e

  pub Ends-atomic :
      {A : Type 0} (m : Flow S A) (s : S) (P : A → S → Type 0) (E F : S → Type 0)
      → Ends P F (m s)
      → E s
      → Ends P E (atomic m s)
  unfolding atomic
  Ends-atomic m s = Ends-rolled_back s (m s)

  Ends-or_rescued :
      {A : Type 0} (k : Fault → Flow S A) (r : Result A × S) (P : A → S → Type 0) (E F : S → Type 0)
      → Ends P F r
      → ((f : Fault) (s : S) → F s → Ends P E (k f s))
      → Ends P E (or_rescued k r)
  Ends-or_rescued k (done a, s) P E F h next = h
  Ends-or_rescued k (failed f, s) P E F h next = next f s h

  pub Ends-rescue :
      {A : Type 0} (m : Flow S A) (k : Fault → Flow S A) (s : S) (P : A → S → Type 0)
      (E F : S → Type 0)
      → Ends P F (m s)
      → ((f : Fault) (s' : S) → F s' → Ends P E (k f s'))
      → Ends P E (rescue m k s)
  unfolding rescue
  Ends-rescue m k s = Ends-or_rescued k (m s)
