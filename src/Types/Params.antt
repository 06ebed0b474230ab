-- ===== src/Types/Params.antt =====
-- core/src/types.rs: the parameters of a job of the extension.
use pg_vectorize.Base.{List, Option, Bytes, codes}
use pg_vectorize.Base.Int.{ℤ}
use pg_vectorize.Types.{Model, IndexDist}

pub data TableMethod : Type 0 where
  append join : TableMethod

-- `args` is a document; it is given by its text.
pub record JobParams : Type 0 where
  pub schema : Bytes
  pub relation : Bytes
  pub columns : List Bytes
  pub update_time_col : Option Bytes
  pub table_method : TableMethod
  pub primary_key : Bytes
  pub pkey_type : Bytes
  pub api_key : Option Bytes
  pub schedule : Bytes
  pub args : Option Bytes

abbrev pub default_schedule : Bytes
default_schedule = codes "realtime"

-- `params` is a document; it is given by its text.
pub record VectorizeMeta : Type 0 where
  pub job_id : ℤ
  pub name : Bytes
  pub index_dist_type : IndexDist
  pub transformer : Model
  pub params : Bytes
