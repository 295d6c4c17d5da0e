-- ===== src/Topic/Tests.antt =====
-- Runs of the topic functions, and the instances of their theorems.
use wirenboard.Common.{
  ◌≤◌, ◌≡◌, ◌↔◌, refl, arith, true, false, ◌&&◌, some, codes, length, not, str_eq,
}
use wirenboard.Topic.{
  valid, invalid, pub_topic_check, sub_topic_check, same_tree, topic_matches_sub,
}
use wirenboard.Topic.Levels.{levels, level_match, is_filter}
use wirenboard.Topic.Check.{sub_topic_check_lem}
use wirenboard.Topic.Match.{topic_matches_sub-level_match}
use wirenboard.Topic.Below.{all_below, topic_matches_sub-all_below}

check_runs :
    (pub_topic_check (codes "a/b") ≡ valid)
    × (sub_topic_check (codes "a/+/#") ≡ valid)
    × (sub_topic_check (codes "a/#/b") ≡ invalid)
    × (sub_topic_check (codes "a+/b") ≡ invalid)
unfolding pub_topic_check sub_topic_check
check_runs = (refl, refl, refl, refl)

match_runs :
    (topic_matches_sub (codes "foo/#") (codes "foo") ≡ some true)
    × (topic_matches_sub (codes "foo/+/baz") (codes "foo/bar/baz") ≡ some true)
    × (topic_matches_sub (codes "foo/+") (codes "foo/") ≡ some true)
    × (topic_matches_sub (codes "#") (codes "$SYS/x") ≡ some false)
    × (topic_matches_sub (codes "+/#") (codes "foo") ≡ some false)
unfolding topic_matches_sub
match_runs = (refl, refl, refl, refl, refl)

sub_topic_check_lem_example :
    (sub_topic_check (codes "a/+/#") ≡ valid)
    ↔ ((is_filter (levels (codes "a/+/#")) ≡ true) × (length (codes "a/+/#") ≤ 65535))
sub_topic_check_lem_example = sub_topic_check_lem (codes "a/+/#") (omega arith)

topic_matches_sub-level_match_example :
    topic_matches_sub (codes "a/+") (codes "a/b")
    ≡ some (
        same_tree (codes "a/+") (codes "a/b")
        && level_match (levels (codes "a/+")) (levels (codes "a/b")))
topic_matches_sub-level_match_example =
    topic_matches_sub-level_match (codes "a/+") (codes "a/b") (cc) refl refl refl

topic_matches_sub-all_below_example :
    topic_matches_sub (all_below (codes "a")) (codes "a/b")
    ≡ some (
        same_tree (all_below (codes "a")) (codes "a/b")
        && (level_match (levels (all_below (codes "a"))) (levels (codes "a/b"))
            && not (str_eq (codes "a/b") (codes "a/"))))
topic_matches_sub-all_below_example =
    topic_matches_sub-all_below (codes "a") (codes "a/b") (cc) refl refl
