-- ===== src/Kafka/Consumer/Prefix.antt =====
-- The batch that the Kafka consumer commits: a first part of what was fetched.
use go_mongo_boilerplate.Base.{
  ◌≡◌, refl, ap, Bool, true, false, List, [], ◌∷◌, Option, take, length,
}
use go_mongo_boilerplate.Kafka.World.{Record, Env, World, Producer, Handler}
use go_mongo_boilerplate.Kafka.Consumer.{
  KafkaConsumerConfig, after_record, after_handle, process_all,
}

after_record_prefix :
    (rec : Record) (recs : List Record) (next : World → List Record × World)
    → ((w : World) → (next w).0 ≡ take (length (next w).0) recs)
    → (r : Bool × World)
    → (after_record rec next r).0 ≡ take (length (after_record rec next r).0) (rec ∷ recs)
unfolding after_record
after_record_prefix rec recs next h (false, w) = refl
after_record_prefix rec recs next h (true, w) = ap (◌∷◌ rec) (h w)

-- The records to commit are the first ones of the fetch, in its order: a record that stays behind
-- holds back all that follow it in the fetch.
pub process_all_prefix :
    (env : Env) (h : Handler) (p : Option Producer) (cfg : KafkaConsumerConfig) (recs : List Record)
    (w : World)
    → let done = (process_all env h p cfg recs w).0 in done ≡ take (length done) recs
unfolding process_all
process_all_prefix env h p cfg [] w = refl
process_all_prefix env h p cfg (rec ∷ recs) w =
    after_record_prefix rec recs (process_all env h p cfg recs)
      (process_all_prefix env h p cfg recs) (after_handle env p rec cfg (h rec w))
