-- ===== src/Transaction.antt =====
-- forastero/transaction.py: the objects that drivers, monitors and channels pass around.
--
-- A subclass of BaseTransaction adds dataclass fields; they are the parameter `F`, with the
-- subclass's own comparison as an instance of `Eq`. `ident` is the object's identity, `id(obj)`.
-- The kinds of event are DriverEvent's, the only ones that code in this repository stores.
pub mod Tabulate
use forastero.Prelude.{ℕ, Bool, Option, Eq, ◌=?=◌}
use forastero.Queue.{EventId}

pub data DriverEvent : Type 0 where
  enqueue pre_drive post_drive : DriverEvent

pub record Transaction (F : Type 0) : Type 0 where
  pub ident : ℕ
  pub timestamp : ℕ
  pub f_event : Option DriverEvent
  pub c_event : Option EventId
  pub fields : F

-- `==` of the dataclass: timestamp, _f_event and _c_event are declared with compare=False.
unfoldable pub tx_eq : {F : Type 0} ⦃e : Eq F⦄ → Transaction F → Transaction F → Bool
tx_eq a b = a.fields =?= b.fields
