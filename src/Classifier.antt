-- ===== src/Classifier.antt =====
-- src/classifier: the rules-v1 reply classifier and its HTTP front.
pub mod Buckets
pub mod Handler
pub mod LambdaApi
pub mod Tests
